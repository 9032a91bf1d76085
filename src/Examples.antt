-- ===== src/Examples.antt =====
-- Concrete users, rows and databases, at which the theorems are applied.
pub mod Files
pub mod Requests
pub mod Links
pub mod Contents
pub mod Members
pub mod Roles
pub mod EventLog
pub mod Locks
pub mod Sessions
pub mod Histories
pub mod Trees
pub mod Commits
pub mod Nodes
use Prim.Native.String.{len}
use hcp.Prelude.{
  ℕ, ◌≡◌, refl, String, Bool, true, Option, none, some, List, [], ◌∷◌, if◌then◌else◌, ◌==◌,
  first_where, pos, any,
}
use hcp.Json.{Json, null, str, get, field, end, nil}
use hcp.Auth.{CurrentUser, role_at_least}
use hcp.Db.{Project, Presence, SoftLock, EventRow, Db, blank}
use hcp.Events.{Runtime}
use hcp.Hnf.{Validation}
use hcp.Access.{MayEdit}

-- Names of different lengths get different identifiers, which is enough for the rows below.
abbrev pub runtime : Runtime
runtime = record {
  uuid_text = λ n. if n == 1 then "01" else "2";
  int_text = λ n. "0";
  uuid5 = λ name. len name;
}

-- A validation that accepts what has a text as its path.
abbrev pub validation : Validation
validation = record {
  model_validate = λ raw. elim (get "object_path" raw) [
    | str path ↦ some (record {
      object_path = path;
      object_id = none;
      version_id = none;
      version_num = none;
      content_hash = none;
      hnf_type = "hardware.object";
      domain = none;
      refs = [];
      properties = none;
    })
    | _ ↦ none
  ];
  errors = λ raw. [];
  model_dump = λ s. field "object_path" (str s.object_path) end;
  py_str = λ v. "";
  py_int = λ v. pos 0;
  py_list = λ v. nil;
  parse_uuid = λ s. none;
}

abbrev pub alice : CurrentUser
alice = record {
  id = 1;
  org_id = 1;
  email = "alice@example.org";
  name = "Alice";
  role = "editor";
  api_key_scopes = [];
}

abbrev pub bob : CurrentUser
bob = record {
  id = 2;
  org_id = 1;
  email = "bob@example.org";
  name = "Bob";
  role = "admin";
  api_key_scopes = [];
}

-- A project and its two users.
abbrev pub start : Db
start = record blank { users = 1 ∷ 2 ∷ []; projects = record { id = 1; org_id = 1 } ∷ [] }

pub may_alice : MayEdit alice 1 start
unfolding role_at_least first_where any
may_alice = record {
  editor = refl;
  project = record { id = 1; org_id = 1 };
  found = refl;
  known = refl;
}

pub may_bob : MayEdit bob 1 start
unfolding role_at_least first_where any
may_bob = record {
  editor = refl;
  project = record { id = 1; org_id = 1 };
  found = refl;
  known = refl;
}
