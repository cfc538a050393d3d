-- ===== src/Chat/Rooms/Led/Writes.antt =====
-- internal/chat: each transaction on the rows of a room that is led as it should be.
use gang_chat_server.Base.{
  ℕ, String, Bool, true, false, not, Option, none, some, ◌≡◌, refl, if_either,
}
use gang_chat_server.Chat.Members.{Role, Members, is_room_member, set_role}
use gang_chat_server.Chat.Rooms.State.{Env, Room, same_policy}
use gang_chat_server.Chat.Rooms.Decide.{
  Reply, Write, asks_to_join, joins, leaves, removes, updates, transfers, mutes, blocks, unblocks,
  invites, declines, accepts_as_member, accepts_as_superuser, accepts_and_asks, accepts_and_joins,
  approves, marks, withdraws, deletes, sets_policy, names_owner,
}
use gang_chat_server.Chat.Rooms.Apply.{
  prune_or_repair_room, drop_member, repaired, rerole, rename, update_target,
}
use gang_chat_server.Chat.Rooms.Handle.{apply}
use gang_chat_server.Chat.Rooms.Transactions.{set_policy}
use gang_chat_server.Chat.Rooms.Led.{
  Led, IsLed, add_room_member-IsLed, drop_member-IsLed, set_role-Led, update_member-Led,
  transfer-Led,
}
use gang_chat_server.Chat.Rooms.Ruled.{prune_or_repair_room-IsRuled, drop_room-IsRuled}
use gang_chat_server.Chat.Rooms.Review.{in_existing-either, auto_review-keeps}

-- A request cannot name the owner's role.
abbrev pub IsAllowed : Write → Type 0
IsAllowed (updates target role name) = names_owner role ≡ false
IsAllowed _ = Unit

repaired-IsLed :
    (draw : ℕ) (before room : Room)
    → IsLed room
    → IsLed (repaired before (prune_or_repair_room draw room)).1
repaired-IsLed draw before room led =
    let (after, e, ruled) = prune_or_repair_room-IsRuled draw room led in rw e ruled.0

rename-Led :
    (ex : Bool) (c target : String) (name : Option (Option String)) (m : Members)
    → Led ex c m
    → Led ex c (rename target name m)
rename-Led ex c target none m led = led
rename-Led ex c target (some name) m led =
    update_member-Led ex c target (λ w. record w { room_display_name = name }) m (λ w. refl) led

rerole-IsLed :
    (draw : ℕ) (target : String) (role : Option Role) (room : Room)
    → names_owner role ≡ false
    → IsLed room
    → (after : Room) × (rerole draw target role room ≡ some after) × IsLed after
rerole-IsLed draw target none room low led = (room, refl, led)
rerole-IsLed draw target (some r) room low led =
    let (after, e, ruled) =
      prune_or_repair_room-IsRuled draw (record room { members = set_role target r room.members })
        (set_role-Led room.exists room.created_by target r room.members low led) in
    (after, e, ruled.0)

module _ (env : Env) (now draw : ℕ) where
  pub apply-IsLed :
      (w : Write) (room : Room) → IsAllowed w → IsLed room → IsLed (apply env now draw w room).1
  unfolding apply update_target
  apply-IsLed (asks_to_join user id reason) room ok led =
      in_existing-either IsLed room _ led (λ _. led)
  apply-IsLed (joins user) room ok led =
      in_existing-either IsLed room _ led (λ e. add_room_member-IsLed now user room e led)
  apply-IsLed (leaves user) room ok led =
      repaired-IsLed draw room (drop_member user room) (drop_member-IsLed user room led)
  apply-IsLed (removes target) room ok led =
      if_either (λ (o : Reply × Room). IsLed o.1) (not (is_room_member target room.members)) led
        (repaired-IsLed draw room (drop_member target room) (drop_member-IsLed target room led))
  apply-IsLed (updates target role name) room ok led =
      let (after, e, led') = rerole-IsLed draw target role room ok led in
      if_either (λ (o : Reply × Room). IsLed o.1) (not (is_room_member target room.members)) led
        (rw e (rename-Led after.exists after.created_by target name after.members led'))
  apply-IsLed (transfers target) room ok led =
      in_existing-either IsLed room _ led
        (λ _. transfer-Led room.exists room.created_by target room.members led)
  apply-IsLed (mutes target until) room ok led =
      if_either (λ (o : Reply × Room). IsLed o.1) (not (is_room_member target room.members)) led
        (update_member-Led room.exists room.created_by target
          (λ w. record w { text_muted_until = until }) room.members (λ w. refl) led)
  apply-IsLed (blocks actor target) room ok led = in_existing-either IsLed room _ led (λ _. led)
  apply-IsLed (unblocks target) room ok led = led
  apply-IsLed (invites inviter target id) room ok led =
      if_either (λ (o : Reply × Room). IsLed o.1) room.exists led led
  apply-IsLed (declines id) room ok led = led
  apply-IsLed (accepts_as_member user) room ok led = led
  apply-IsLed (accepts_as_superuser user) room ok led = led
  apply-IsLed (accepts_and_asks user id reason) room ok led =
      in_existing-either IsLed room _ led (λ _. led)
  apply-IsLed (accepts_and_joins user reviewer) room ok led =
      in_existing-either IsLed room _ led (λ e. add_room_member-IsLed now user room e led)
  apply-IsLed (approves reviewer user id) room ok led =
      in_existing-either IsLed room _ led (λ e. add_room_member-IsLed now user room e led)
  apply-IsLed (marks reviewer id status) room ok led = led
  apply-IsLed (withdraws id) room ok led = led
  apply-IsLed deletes room ok led = (drop_room-IsRuled room).0
  apply-IsLed (sets_policy reviewer old new) room ok led = in_existing-either IsLed room _ led (λ e.
      if_either IsLed (same_policy old new) led
        (auto_review-keeps (λ r. (r.exists ≡ true) × IsLed r) (λ r qs p. p) env now
          (λ user r _ _ p. (p.0, add_room_member-IsLed now user r p.0 p.1)) reviewer old new
          (set_policy new room) (e, led)).1)
