-- ===== src/BrokerClient.antt =====
-- internal/brokerclient/client.go: the client that lists the broker's jobs.
pub mod Inventory
mod Tests
use infraforge.Base.{
  ℕ, Bool, true, false, Text, txt, List, [], ◌∷◌, ◌++◌, Option, none, some, GoError, Result, ok,
  err, new_error, wrap, if◌then◌else◌, ◌==◌,
}
use infraforge.Model.{Job}
use infraforge.Xds.Reconciler.{JobLister}

-- A reply: its status, and the jobs that its body decodes to.
pub record Reply : Type 0 where
  pub code : ℕ
  pub status : Text
  pub jobs : Result (List Job)

pub record Transport (W : Type 0) : Type 0 where
  -- the error of `http.NewRequestWithContext` for a URL
  pub new_request : Text → Option GoError
  pub get : Text → W → Result Reply × W

abbrev pub jobs_of : Reply → Result (List Job)
jobs_of r =
    if r.code == 200
    then (elim r.jobs [ err e ↦ err (wrap (txt "decode response: ") e []) | ok jobs ↦ ok jobs ])
    else err (new_error (txt "broker /v1/provision -> " ++ r.status))

abbrev pub list_url : Text → Text
list_url addr = txt "http://" ++ (addr ++ txt "/v1/provision")

module _ {W : Type 0} (http : Transport W) (addr : Text) where
  unfoldable pub list : W → Result (List Job) × W
  unfolding txt
  list w = elim (http.new_request (list_url addr)) [
    | some e ↦ (err e, w)
    | none ↦
        let (answer, w) = http.get (list_url addr) w in
        elim answer [ err e ↦ (err (wrap (txt "call broker: ") e []), w) | ok r ↦ (jobs_of r, w) ]
  ]

  abbrev pub broker_client : JobLister W
  broker_client = record { list = list }
