-- ===== src/Provisioner/Tests.antt =====
-- internal/provisioner: concrete containers and names.
use infraforge.Base.{
  ℕ, ◌+◌, ◌≡◌, ◌≢◌, refl, true, Text, txt, List, [], ◌∷◌, ◌++◌, pos, none, some, ok, new_error,
  GoError, err_transient, errors_is, trim_space, to_lower, arith, All, text_eq, lines_of, IsWord,
  has_prefix, atoi,
}
use infraforge.Base.Dict
use infraforge.Base.Dict.{Dict}
use infraforge.Model.{Job, pending}
use infraforge.Provisioner.Naming.{Creds, postgres_name}
use infraforge.Provisioner.Inspect.{
  Inspect, host_port_of, connection_from_inspect, user_key, password_key, db_key,
}
use infraforge.Provisioner.Docker.{Docker, Ran, failed, out_of_rounds}
use infraforge.Provisioner.Wait.{IsClock}
use infraforge.Provisioner.Shell.{new_shell, provision, deprovision, postgres_args}
use infraforge.Provisioner.Trace.{traced}
use infraforge.Provisioner.Ends.{provision_ends}
use infraforge.Provisioner.Permanent.{provision_marked}
use infraforge.Provisioner.Classify.{OneOccurs, this, other, transient_patterns}
use infraforge.Provisioner.Removal.{Removed, deprovision_removes}
use infraforge.Provisioner.Credentials.{env_of, IsForeign, connection_from_inspect_created}

abbrev job : Job
job = record {
  id = txt "j1";
  service_name = txt "Check-Out";
  resource = txt "postgres";
  status = pending;
  detail = [];
  attempts = pos 0;
  connection = none;
  http = none;
  created_at = 1;
  updated_at = 1;
}

abbrev quiet : Ran
quiet = record { output = []; failure = none }

-- A daemon that knows no container, and whose world is the time.
abbrev empty : Docker ℕ
empty = record {
  output = λ args w. (
    record {
      output = [];
      failure = some (record {
        error = new_error (txt "exit status 1");
        stderr = some (txt "No such object");
      });
    },
    w,
  );
  combined_output = λ args w. (quiet, w);
  run = λ args w. (none, w);
  decode_inspect = λ t. ok [];
  http_get = λ url w. (ok 200, w);
  random = λ n w. ([], w);
  now = λ w. (w, w);
  ctx_err = λ w. (none, w);
  pause = λ step w. (none, w + step);
  invalid_port = λ t. new_error t;
}

empty-IsClock : IsClock empty
empty-IsClock = record {
  time = λ w. w;
  now_time = λ w. refl;
  now_later = λ w. omega arith;
  ctx_later = λ w. omega arith;
  run_later = λ args w. omega arith;
  http_later = λ url w. omega arith;
  pause_later = λ step w h. omega arith;
}

provision_ends_example : (provision empty new_shell 77 job 0).0 ≢ out_of_rounds
provision_ends_example = provision_ends empty new_shell job 0 empty-IsClock

-- No container is there, and the daemon is not reached when one is to be created.
abbrev unreachable : Docker ℕ
unreachable = record empty {
  combined_output = λ args w. (
    record {
      output = txt "dial tcp: Connection refused";
      failure = some (record { error = new_error (txt "exit status 125"); stderr = none });
    },
    w,
  );
}

abbrev refused : GoError
refused = record {
  message =
      txt
        "transient error: postgres: docker run postgres: exit status 125: dial tcp: Connection refused";
  chain = err_transient ∷ [];
}

unreachable_refuses : (provision unreachable new_shell 77 job 0).0 ≡ failed refused
unfolding txt provision transient_patterns trim_space
unreachable_refuses = refl

refused_names : OneOccurs (to_lower refused.message) transient_patterns
unfolding txt transient_patterns to_lower
refused_names = other (
    other (
      other (
        this (record {
          before =
              txt "transient error: postgres: docker run postgres: exit status 125: dial tcp: ";
          after = [];
          split = refl;
        }))))

provision_marked_example : errors_is refused err_transient ≡ true
provision_marked_example =
    provision_marked unreachable new_shell 77 job 0 refused unreachable_refuses refused_names

abbrev two : List Text
two = txt "a1" ∷ txt "b2" ∷ []

abbrev holding_two : Docker ℕ
holding_two = record empty {
  output = λ args w. (record { output = lines_of two; failure = none }, w);
}

two-IsWord : All IsWord two
unfolding txt
two-IsWord = ((λ e. cc, (refl, (refl, tt))), ((λ e. cc, (refl, (refl, tt))), tt))

deprovision_removes_example :
    Removed holding_two new_shell 77 job two 0
      (deprovision (traced holding_two) new_shell 77 job (0, [])).0
      (deprovision (traced holding_two) new_shell 77 job (0, [])).1.1
deprovision_removes_example = deprovision_removes holding_two new_shell 77 job 0 two refl two-IsWord

abbrev creds : Creds
creds = record { user = txt "u_1"; pass = txt "secret"; db = txt "app_shop" }

abbrev up : Inspect
up = record {
  running = true;
  env = env_of (postgres_args new_shell (postgres_name job) creds job) ++ (txt "LANG=C" ∷ []);
  ports = (txt "5432/tcp", record { host_ip = txt "0.0.0.0"; host_port = txt "32768" } ∷ []) ∷ [];
}

up_port :
    host_port_of new_error up (txt "5432/tcp")
    ≡ ok (record { host = txt "127.0.0.1"; port = pos 32768 })
unfolding host_port_of Dict.lookup txt text_eq atoi
up_port = refl

from_image-IsForeign : All IsForeign (txt "LANG=C" ∷ [])
unfolding txt has_prefix user_key password_key db_key
from_image-IsForeign = (refl, tt)

connection_from_inspect_created_example :
    connection_from_inspect new_error up
    ≡ ok (record {
      host = txt "127.0.0.1";
      port = pos 32768;
      username = txt "u_1";
      password = txt "secret";
      database = txt "app_shop";
    })
connection_from_inspect_created_example =
    connection_from_inspect_created new_error new_shell creds job up (txt "LANG=C" ∷ [])
      (record { host = txt "127.0.0.1"; port = pos 32768 }) refl from_image-IsForeign up_port
