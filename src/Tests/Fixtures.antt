-- ===== src/Tests/Fixtures.antt =====
-- The users, requests and stores of the examples.
use skill_up.Base.{false, Option, none, some, [], ◌∷◌, if◌then◌else◌}
use skill_up.Text.{Text, codes, text_eq}
use skill_up.Shared.{User, UserRole, UserStatus}
use skill_up.Services.{Ttl}
use skill_up.Services.Memory.{memory, Cells}
use skill_up.Session.{SessionParams}
use skill_up.Effects.{World}
use skill_up.Users.Tokens.{Fresh}
use skill_up.Users.Login.{LoginRequest, LoginFaults}
use skill_up.Users.Verify.{VerifyRequest}

abbrev pub alice : UserStatus → User
alice status = record {
  id = codes "u1";
  username = codes "alice";
  email = codes "a@x.io";
  password = codes "secret";
  role = UserRole.student;
  status = status;
  profile_photo = none;
  birth_date = none;
  created_at = 1;
  updated_at = 1;
}

abbrev pub no_strings : Text → Option Text
no_strings k = none

abbrev pub one_string : Text → Text → Text → Option Text
one_string k v j = if text_eq k j then some v else none

abbrev pub cells : (Text → Option Text) → Cells
cells strings = record {
  strings = strings;
  times = λ k. Ttl.missing;
  hashes = λ k. [];
  sets = λ k. [];
}

abbrev pub world : UserStatus → (Text → Option Text) → World memory
world status strings = record {
  store = cells strings;
  rows = record { ids = codes "u1" ∷ []; row = λ i. alice status; messages = [] };
  triggers = 0;
}

abbrev pub fresh : Fresh
fresh = record {
  session_id = codes "s1";
  refresh_token = codes "r1";
  salt = codes "salt";
  jwt_secret = codes "key";
  created_at = codes "2026";
  now = 100;
}

abbrev pub params : SessionParams
params = record {
  session_id = codes "s1";
  user_id = codes "u1";
  hashed_refresh_token = codes "r1";
  ip_address = codes "127.0.0.1";
  user_agent = codes "unknown";
  created_at = codes "2026";
  max_devices = 2;
  ttl_seconds = 60;
}

abbrev pub sign_in : Text → LoginRequest
sign_in password = record {
  identifier = codes "a@x.io";
  password = password;
  ip_address = [];
  ip_address_alias = [];
  user_agent = [];
  user_agent_alias = [];
}

abbrev pub no_login_faults : LoginFaults
no_login_faults = record {
  get = false;
  ttl = false;
  find = false;
  compare = false;
  incr = false;
  expire = false;
  del = false;
  hash = false;
  save = false;
}

abbrev pub confirm : Text → VerifyRequest
confirm code = record {
  email = codes "a@x.io";
  code = code;
  ip_address = [];
  ip_address_alias = [];
  user_agent = [];
  user_agent_alias = [];
}
