-- ===== src/BrokerClient/Inventory.antt =====
-- internal/brokerclient/client.go and internal/api/api.go: the client and the broker together.
use mathlib.Core.List.{Perm}
use infraforge.Base.{
  ℕ, ◌≡◌, refl, false, Text, txt, List, [], ◌∷◌, ◌++◌, Option, none, some, Result, ok, IsSorted,
  arith, All, sort_by, ◌==◌, if◌then◌else◌, text_eq,
}
use infraforge.Model.{Job}
use infraforge.Api.{
  Server, Response, Body, jobs_body, older, serve, get_list, handle_list, write_json, Request,
  get_route, after_prefix,
}
use infraforge.Api.Inventory.{handle_list-IsSorted}
use infraforge.BrokerClient.{Reply, Transport, list, list_url}

-- The jobs that a response's body decodes to: an object without the field has none.
abbrev pub jobs_in : Body → Result (List Job)
jobs_in (jobs_body n jobs) = ok jobs
jobs_in _ = ok []

-- A host with its port has no slash.
abbrev pub IsHost : Text → Type 0
IsHost addr = All (λ c. (c == b'/') ≡ false) addr

abbrev from_slash : Text → Text
from_slash [] = []
from_slash (c ∷ s) = let rest = from_slash s in if c == b'/' then c ∷ s else rest

-- The path of a URL.
abbrev pub path_of : Text → Text
path_of url = elim (after_prefix (txt "http://") url) [ none ↦ [] | some rest ↦ from_slash rest ]

from_slash-append :
    (addr path : Text) → IsHost addr → from_slash (addr ++ (b'/' ∷ path)) ≡ b'/' ∷ path
from_slash-append [] path h = refl
from_slash-append (c ∷ addr) path h = ground (arith, from_slash-append addr path h.1)

module _ {W : Type 0} (s : Server W) (status_text : ℕ → Text) where
  abbrev pub reply_of : Response → Reply
  reply_of r = record { code = r.code; status = status_text r.code; jobs = jobs_in r.body }

  abbrev routed : Option Request → W → Result Reply × W
  routed none w = (ok (record { code = 404; status = status_text 404; jobs = ok [] }), w)
  routed (some request) w = let (r, w) = serve s request w in (ok (reply_of r), w)

  -- A network that brings each GET to the broker, which serves it by its path, and the reply back.
  unfoldable pub answered : Text → W → Result Reply × W
  unfolding serve
  answered url w = routed (get_route (path_of url)) w

  abbrev pub network : Transport W
  network = record { new_request = λ url. none; get = answered }

  list_url_routed :
      (addr : Text) → IsHost addr → get_route (path_of (list_url addr)) ≡ some get_list
  unfolding txt get_route text_eq
  list_url_routed addr host = rw (from_slash-append addr (txt "v1/provision") host) refl

  pub list_shown :
      (addr : Text) (w : W) (jobs : List Job)
      → IsHost addr
      → (s.store.list w).0 ≡ ok jobs
      → (list network addr w).0 ≡ ok (sort_by older jobs)
  unfolding list answered write_json handle_list
  list_shown addr w jobs host h = ground (arith, h, list_url_routed addr host)

  -- Over a network that brings each GET to the broker by the path of its URL, where the broker's
  -- address has no slash, the reconciler's client returns the jobs of the broker's store, each as
  -- often as the store lists it, the oldest first, if the store lists them.
  pub list_served :
      (addr : Text) (w : W) (jobs : List Job)
      → IsHost addr
      → (s.store.list w).0 ≡ ok jobs
      → (shown : List Job) × ((list network addr w).0 ≡ ok shown)
        × Perm shown jobs
        × IsSorted older shown
  unfolding list answered write_json
  list_served addr w jobs host h =
      let (shown, answer, same, sorted) = handle_list-IsSorted s w jobs h in
      (shown, ground (arith, answer, list_url_routed addr host), same, sorted)
