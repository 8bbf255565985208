-- ===== src/Tests/Redises.antt =====
-- Revoked tokens, a value stored as JSON, and the reconnections.
use skill_up.Base.{◌≡◌, ◌≢◌, ◌≤◌, ◌<◌, ◌⊎◌, refl, arith, ◌||◌, Option, none, some, []}
use skill_up.Text.{Text, codes, text_eq}
use skill_up.Values.{Value, text}
use skill_up.Services.Memory.{memory, memory_redis}
use skill_up.Redis.{blacklist_token, is_token_blacklisted, set_json, get_json, retry_strategy}
use skill_up.Redis.Tokens.{is_token_blacklisted-blacklist_token, get_json-set_json}
use skill_up.Redis.Reconnect.{retry_strategy-bound}
use skill_up.Tests.Fixtures.{cells, no_strings}

revoked :
    is_token_blacklisted memory
      (codes "j2")
      (blacklist_token memory (codes "j1") 60 (cells no_strings))
    ≡ (text_eq (codes "j1") (codes "j2")
        || is_token_blacklisted memory (codes "j2") (cells no_strings))
revoked =
    is_token_blacklisted-blacklist_token memory memory_redis (codes "j1") (codes "j2") 60
      (cells no_strings) (omega arith)

-- A serialiser of one value.
abbrev written : Value → Text
written v = codes "\"a\""

abbrev back : Text → Option Value
back t = some (text (codes "a"))

not_empty : written (text (codes "a")) ≢ []
not_empty h = cc

read_back :
    get_json memory written back
      (codes "k")
      (set_json memory written back (codes "k") (text (codes "a")) (some 60) (cells no_strings))
    ≡ some (text (codes "a"))
read_back =
    get_json-set_json memory memory_redis written back (codes "k") (text (codes "a")) (some 60)
      (cells no_strings) not_empty refl

sixteenth :
    ((16 ≤ 15) × (retry_strategy 16 ≡ some 1600) × (1600 ≤ 1500))
    ⊎ ((15 < 16) × (retry_strategy 16 ≡ none))
sixteenth = retry_strategy-bound 16
