-- ===== src/Tests/Sessions.antt =====
-- Logins on a third device, where two are allowed.
use skill_up.Base.{◌≡◌, ◌≤◌, arith, refl, [], ◌∷◌, if◌then◌else◌}
use skill_up.Text.{codes, text_eq}
use skill_up.Services.Memory.{memory, memory_sets, Cells}
use skill_up.Session.{save_session, user_sessions_key}
use skill_up.Session.Sets.{without}
use skill_up.Session.{session_key}
use skill_up.Session.Eviction.{save_session_bound, Above}
use skill_up.Session.Newest.{newest_session_kept}
use skill_up.Tests.Fixtures.{params, cells, no_strings}

-- Two devices already, from the times 3 and 5.
abbrev two_devices : Cells
two_devices = record (cells no_strings) {
  sets = λ k.
      if text_eq k (user_sessions_key (codes "u1"))
      then (3, codes "a") ∷ (5, codes "b") ∷ []
      else [];
}

save_session_bound_example :
    memory.zcard (user_sessions_key (codes "u1")) (save_session memory params 9 two_devices) ≤ 2
save_session_bound_example = save_session_bound memory_sets params 9 two_devices (omega arith)

late : Above 9 (memory_sets.entries (user_sessions_key (codes "u1")) two_devices)
unfolding memory_sets text_eq user_sessions_key
late = (omega arith, (omega arith, tt))

new_id : memory.hgetall (session_key (codes "s1")) two_devices ≡ []
unfolding session_key
new_id = refl

newest_session_kept_example :
    (memory_sets.entries (user_sessions_key (codes "u1")) (save_session memory params 9 two_devices)
      ≡ (5, codes "b") ∷ (9, codes "s1") ∷ [])
    × (memory.hgetall (session_key (codes "s1")) (save_session memory params 9 two_devices)
        ≡ (codes "userId", params.user_id)
          ∷ (codes "hashedRefreshToken", params.hashed_refresh_token)
          ∷ (codes "ipAddress", params.ip_address)
          ∷ (codes "userAgent", params.user_agent)
          ∷ (codes "createdAt", params.created_at)
          ∷ [])
    × (memory.hgetall (session_key (codes "a")) (save_session memory params 9 two_devices) ≡ [])
unfolding memory_sets without text_eq user_sessions_key
newest_session_kept_example =
    newest_session_kept memory_sets params 9 two_devices (codes "a") (omega arith) (omega arith)
      late new_id
