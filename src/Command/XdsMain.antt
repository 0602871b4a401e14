-- ===== src/Command/XdsMain.antt =====
-- cmd/xds/main.go: the control plane's process.
use infraforge.Base.{true, false, List, [], ◌∷◌, ℕ, Text, txt, ℤ, pos, Option, none, some, GoError}
use infraforge.BrokerClient.{Transport, broker_client}
use infraforge.Xds.Envoy.{SnapshotCache}
use infraforge.Xds.Registry.{push_empty}
use infraforge.Xds.Reconciler
use infraforge.Xds.Reconciler.{reconcile}
use infraforge.Command.{
  Event, http_ended, grpc_ended, told_to_stop, Os, env_or, env_dur, Outcome, exits, runs,
}

-- What the process listens on, and how often it reconciles.
pub record Plan : Type 0 where
  pub grpc_addr : Text
  pub http_addr : Text
  pub reconcile_every : ℤ

module _ {W C : Type 0} (os : Os) (http : Transport W) (cache : SnapshotCache C)
    (listen : Text → W → Option GoError × W) where
  abbrev pub World : Type 0
  World =
      Reconciler.World (broker_client http (env_or os (txt "BROKER_ADDR") (txt "localhost:8080")))
        cache

  -- The first reconcile of `startReconciler`; its error is logged.
  unfoldable pub start_reconciler : ℕ → World → World
  unfolding reconcile env_or txt
  start_reconciler unix s =
      (reconcile (broker_client http (env_or os (txt "BROKER_ADDR") (txt "localhost:8080"))) cache
        unix s).1

  unfoldable pub plan : Plan
  unfolding env_or env_dur txt
  plan = record {
    grpc_addr = env_or os (txt "XDS_GRPC_ADDR") (txt ":18000");
    http_addr = env_or os (txt "XDS_HTTP_ADDR") (txt ":19000");
    reconcile_every = env_dur os (txt "XDS_RECONCILE_EVERY") (pos 60000000000);
  }

  -- `main` up to the servers and to the loop of `Run`, with the clock's seconds at the two pushes.
  unfoldable pub boot : ℕ → ℕ → World → Outcome Plan × World
  unfolding push_empty start_reconciler plan
  boot unix unix' s =
      let (failure, plane) = push_empty cache unix s.plane in
      let s = record s { plane = plane } in
      elim failure [
        | some e ↦ (exits 1, s)
        | none ↦
            let s = start_reconciler unix' s in
            let (failure, w) = listen plan.grpc_addr s.world in
            let s = record s { world = w } in
            elim failure [ some e ↦ (exits 1, s) | none ↦ (runs plan, s) ]
      ]

-- `main` from the servers on: the code that the process exits with, `none` as long as it serves.
unfoldable pub serve_until : List Event → Option ℕ
serve_until [] = none
serve_until (told_to_stop ∷ events) = some 0
serve_until (http_ended true ∷ events) = serve_until events
serve_until (http_ended false ∷ events) = some 1
serve_until (grpc_ended none ∷ events) = serve_until events
serve_until (grpc_ended (some e) ∷ events) = some 1
