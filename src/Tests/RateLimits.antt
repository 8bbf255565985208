-- ===== src/Tests/RateLimits.antt =====
-- A first request on a limited endpoint, for an account by its email.
use skill_up.Base.{◌<◌, ◌≡◌, ◌↔◌, refl, arith, false, none, some, [], inl}
use skill_up.Text.{codes, trim}
use skill_up.Shared.{UserStatus}
use skill_up.Services.Memory.{memory, memory_redis}
use skill_up.Effects.{World, ok}
use skill_up.Users.Counter.{Counts}
use skill_up.RateLimit.{
  RateLimitOptions, GuardRequest, GuardFaults, allowed, Reply, raw_target, account_key,
  can_activate,
}
use skill_up.RateLimit.Layers.{Answering, ip_layer_key, can_activate-layers}
use skill_up.Tests.Fixtures.{world, no_strings}

abbrev five_a_minute : RateLimitOptions
five_a_minute = record { limit = 5; ttl = 60; prefix = codes "login" }

abbrev request : GuardRequest
request = record {
  ip = codes "::ffff:10.0.0.1";
  remote_address = [];
  email = some (codes "a@x.io");
  identifier = none;
}

abbrev no_guard_faults : GuardFaults
no_guard_faults = record { eval_ip = false; ttl_ip = false; eval_email = false; ttl_email = false }

answering : Answering no_guard_faults
answering = record { eval_ip = refl; ttl_ip = refl; eval_email = refl; ttl_email = refl }

named : raw_target request ≡ some (codes "a@x.io")
unfolding raw_target trim
named = refl

window : 0 < five_a_minute.ttl
window = omega arith

can_activate-layers_example :
    (reply : Reply) × (w' : World memory) × (can_activate memory no_guard_faults
        (some five_a_minute)
        request
        9
        (world UserStatus.active no_strings)
      ≡ ok reply w')
    × ((reply.verdict ≡ allowed) ↔ ((0 < 5) × (0 < 5)))
    × Counts memory_redis
        (ip_layer_key memory_redis no_guard_faults five_a_minute window request)
        1
        w'.store
    × Counts memory_redis
        (account_key memory no_guard_faults five_a_minute (codes "a@x.io"))
        1
        w'.store
can_activate-layers_example =
    can_activate-layers memory_redis no_guard_faults five_a_minute window answering request
      (codes "a@x.io") 9 0 0 (world UserStatus.active no_strings) named (inl (refl, refl))
      (inl (refl, refl))
