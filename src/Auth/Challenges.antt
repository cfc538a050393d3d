-- ===== src/Auth/Challenges.antt =====
-- internal/auth: the rows of `email_verification_challenges` and `password_reset_challenges`, which have
-- the same columns, and the statements on them. The subject of a challenge is the normalized address
-- for the one and the user for the other. Times are in seconds.
pub mod Rows
pub mod Live
use gang_chat_server.Base.{
  ℕ, ◌+◌, ◌-◌, String, Bool, true, false, ◌&&◌, ◌||◌, not, if◌then◌else◌, ltb, ◌==◌, List, [], ◌∷◌,
  Option, none, some,
}
use gang_chat_server.Base.Eq.{◌=?◌, string_eq}
use gang_chat_server.Base.Query.{best}

pub record Challenge : Type 0 where
  pub id : String
  pub subject : String
  pub email : String
  pub code_hash : String
  pub expires_at : ℕ
  pub resend_available_at : ℕ
  pub attempts : ℕ
  pub verified_at : Option ℕ
  pub token_hash : Option String
  pub token_expires_at : ℕ
  pub consumed_at : Option ℕ
  pub created_at : ℕ
  pub updated_at : ℕ

abbrev pub code_ttl : ℕ
code_ttl = 600

abbrev pub resend_delay : ℕ
resend_delay = 60

abbrev pub token_ttl : ℕ
token_ttl = 600

abbrev pub max_attempts : ℕ
max_attempts = 5

abbrev pub is_null {ℓ} : {A : Type ℓ} → Option A → Bool
is_null none = true
is_null (some a) = false

unfoldable pub by_id : String → List Challenge → Option Challenge
by_id id [] = none
by_id id (c ∷ cs) = if c.id =? id then some c else by_id id cs

-- UPDATE … WHERE id = ?
unfoldable pub update_row : String → (Challenge → Challenge) → List Challenge → List Challenge
update_row id f [] = []
update_row id f (c ∷ cs) = (if c.id =? id then f c else c) ∷ update_row id f cs

-- UPDATE … SET consumed_at = ? WHERE subject = ? AND id != ? AND consumed_at IS NULL
unfoldable pub consume_others : ℕ → String → String → List Challenge → List Challenge
consume_others now subject id [] = []
consume_others now subject id (c ∷ cs) =
    (if (c.subject =? subject) && not (c.id =? id) && is_null c.consumed_at
      then record c { consumed_at = some now; updated_at = now }
      else c)
    ∷ consume_others now subject id cs

-- ORDER BY created_at DESC, updated_at DESC
abbrev pub newer : Challenge → Challenge → Bool
newer c d =
    ltb d.created_at c.created_at
    || ((c.created_at == d.created_at) && ltb d.updated_at c.updated_at)

unfoldable pub latest : String → List Challenge → Option Challenge
latest subject cs = best newer (λ c. c.subject =? subject) (λ c. true) cs

unfoldable pub retry_after : Challenge → ℕ → ℕ
retry_after c now = c.resend_available_at - now

unfoldable pub new_challenge : ℕ → String → String → String → String → Challenge
new_challenge now id subject email code_hash = record {
  id = id;
  subject = subject;
  email = email;
  code_hash = code_hash;
  expires_at = now + code_ttl;
  resend_available_at = now + resend_delay;
  attempts = 0;
  verified_at = none;
  token_hash = none;
  token_expires_at = 0;
  consumed_at = none;
  created_at = now;
  updated_at = now;
}

-- What a resend writes.
abbrev pub resent : ℕ → String → Challenge → Challenge
resent now code_hash c = record c {
  code_hash = code_hash;
  expires_at = now + code_ttl;
  resend_available_at = now + resend_delay;
  attempts = 0;
  updated_at = now;
}

-- What a wrong code writes, of the number of attempts that was read.
abbrev pub wrong : ℕ → ℕ → Challenge → Challenge
wrong now read c = record c {
  attempts = read + 1;
  consumed_at = if ltb (read + 1) max_attempts then none else some now;
  updated_at = now;
}

abbrev pub verified : ℕ → String → Challenge → Challenge
verified now token_hash c = record c {
  verified_at = some now;
  token_hash = some token_hash;
  token_expires_at = now + token_ttl;
  updated_at = now;
}

abbrev pub consumed : ℕ → Challenge → Challenge
consumed now c = record c { consumed_at = some now; updated_at = now }

abbrev pub same_token : String → Option String → Bool
same_token token none = false
same_token token (some t) = t =? token

-- The unique index on the token's hash.
unfoldable pub has_token : String → List Challenge → Bool
has_token token [] = false
has_token token (c ∷ cs) = same_token token c.token_hash || has_token token cs

pub data Reply : Type 0 where
  challenge : (id : String) → (retry_after : ℕ) → Reply
  token : Reply
  done : Reply
  cooldown : (retry_after : ℕ) → Reply
  expired not_found invalid_code too_many_attempts send_failed internal_error : Reply
