-- ===== src/Threads/Records/Routed.antt =====
-- internal/worker/worker.go, internal/api/api.go, internal/brokerclient/client.go,
-- internal/xds/reconciler.go, internal/xds/registry.go: from the records that workers write, over the
-- broker, to the routes that Envoy is given.
use infraforge.Base.{
  ℕ, ◌≡◌, ◌∙◌, arith, true, Text, text_eq_refl, List, [], ◌∷◌, All, Among, Among-All, Option, none,
  some, GoError, sort_by, count_if-sort_by, Among-sort_by, ok, inl, inr,
}
use infraforge.Model.{Job, HttpEndpoint, ready}
use infraforge.Queue.{Message}
use infraforge.Worker.Crash.{view}
use infraforge.System.Always.{IsSoundSystem}
use infraforge.Calls.{Services}
use infraforge.Threads.{State, anyone, Reach}
use infraforge.Threads.Always.{IsAtRest}
use infraforge.Threads.Records.Always.{IsWellKept, Reach-IsWellKept}
use infraforge.System.{broker}
use infraforge.Api.{older}
use infraforge.BrokerClient.{broker_client}
use infraforge.BrokerClient.Inventory.{IsHost, network, list_shown}
use infraforge.Xds.Envoy.{Snapshot, SnapshotCache}
use infraforge.Xds.Registry.{Endpoint, endpoint_key, Plane}
use infraforge.Xds.Registry.Build.Routing.{routes_to}
use infraforge.Xds.Reconciler.Shown.{IsCache, Shows, reconcile-Shows}
use infraforge.Xds.Registry.View.{IsValid}
use infraforge.Xds.Reconciler.{JobLister, World, reconcile}
use infraforge.Xds.Reconciler.Desired.{DistinctEndpoints, serves, served}
use infraforge.Xds.Reconciler.Converges.{reconcile_exact}

served-Among :
    (jobs : List Job) (svc : Text) (e : Endpoint) (j : Job)
    → Among jobs j
    → serves svc e j ≡ true
    → served jobs svc e ≡ true
served-Among [] svc e j a h = absurd a
served-Among (i ∷ jobs) svc e j (inl same) h = ground (arith, same, h)
served-Among (i ∷ jobs) svc e j (inr a) h = ground (arith, served-Among jobs svc e j a h)

abbrev endpoint_of : HttpEndpoint → Endpoint
endpoint_of h = record { host = h.host; port = h.port }

ready-serves :
    (j : Job) (h : HttpEndpoint)
    → j.status ≡ ready
    → j.http ≡ some h
    → serves j.service_name (endpoint_of h) j ≡ true
ready-serves j h up at =
    ground (arith, up, at, text_eq_refl j.service_name, text_eq_refl (endpoint_key (endpoint_of h)))

sorted-Distinct :
    (jobs : List Job) → DistinctEndpoints jobs → DistinctEndpoints (sort_by older jobs)
sorted-Distinct jobs distinct svc e =
    omega (arith, count_if-sort_by older (serves svc e) jobs, distinct svc e)

module _ {W : Type 0} (s : Services W) (Held : Message → W → Type 0)
    (sound : IsSoundSystem s.k s.random_bytes s.context Held) {C : Type 0} (cache : SnapshotCache C)
    (current : C → Option Snapshot) (lawful : IsCache cache current) (status_text : ℕ → Text)
    (addr : Text) (host : IsHost addr) where
  -- The control plane's client of the broker, which is on the store of the workers.
  abbrev pub client : JobLister W
  client = broker_client (network (broker s.k s.random_bytes) status_text) addr

  -- The control plane's reconcile, while the store is as the state has it.
  abbrev pub reconciled : ℕ → Plane cache → State W → Option GoError × World client cache
  reconciled unix p b = reconcile client cache unix (record { plane = p; world = b.world })

  -- The snapshot that Envoy is given routes the service of the job to its address.
  abbrev pub IsRouted : Job → Plane cache → Type 0
  IsRouted j p =
      (h : HttpEndpoint) × (j.http ≡ some h)
      × ((snap : Snapshot) × (current p.1 ≡ some snap)
          × (routes_to j.service_name (endpoint_of h) snap ≡ true))

  -- If the control plane asks the broker over HTTP, and its reconcile has no error, then every ready
  -- job that is in the store has an address, and the snapshot that Envoy is given has a route of the
  -- job's service to a cluster with this address, however the calls of requests and workers
  -- interleaved before and whichever died, if at first no process ran and every record was
  -- well-formed. The store lists the jobs as it has them, and no two of them serve one endpoint of one
  -- service; the registry was well-formed, with all it held routed by the snapshot at that time; the
  -- store keeps what it is given, no write fails, and the other services touch no job; the network
  -- brings each request to the broker, whose address has no slash, and the cache keeps the snapshot
  -- that was last set without an error.
  pub ready_jobs-IsRouted :
      (a b : State W) (unix : ℕ) (p : Plane cache) (jobs : List Job) (j : Job)
      → Reach s (anyone s) a b
      → IsAtRest s Held sound a
      → IsWellKept s Held sound a.world
      → (s.k.store.list b.world).0 ≡ ok jobs
      → All (λ (i : Job). view s.k Held i.id b.world ≡ ok i) jobs
      → IsValid p.0.services
      → Shows cache current p
      → DistinctEndpoints jobs
      → Among jobs j
      → j.status ≡ ready
      → (reconciled unix p b).0 ≡ none
      → IsRouted j (reconciled unix p b).1.plane
  ready_jobs-IsRouted a b unix p jobs j r rest v listed stored valid shown distinct among up fine =
      let kept = Reach-IsWellKept s Held sound a b r rest v in
      let well =
        kept.formed j.id j
          (Among-All (λ (i : Job). view s.k Held i.id b.world ≡ ok i) jobs stored j among) in
      let (c, h, _, at) = well.reachable up in
      let x : World client cache = record { plane = p; world = b.world } in
      let seen = sort_by older jobs in
      let answer =
        list_shown (broker s.k s.random_bytes) status_text addr b.world jobs host listed in
      let held =
        reconcile_exact client cache unix x seen j.service_name (endpoint_of h) answer valid
          (sorted-Distinct jobs distinct)
        ∙ served-Among seen j.service_name (endpoint_of h) j (Among-sort_by older jobs j among)
            (ready-serves j h up at) in
      let (snap, is, routes) =
        reconcile-Shows client cache current lawful unix x seen answer fine shown in
      (h, at, (snap, is, routes j.service_name (endpoint_of h) held))
