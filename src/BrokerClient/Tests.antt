-- ===== src/BrokerClient/Tests.antt =====
-- internal/brokerclient: a broker that holds one job.
use mathlib.Core.List.{Perm}
use infraforge.Base.{ℕ, ◌≡◌, refl, Text, txt, List, [], ◌∷◌, pos, none, ok, IsSorted, arith}
use infraforge.Model.{Job, ready}
use infraforge.Store.Mem
use infraforge.Store.Mem.{MemStore, memory_store}
use infraforge.Api.{Server, older}
use infraforge.BrokerClient.{list}
use infraforge.BrokerClient.Inventory.{network, list_served, IsHost}

abbrev job : Job
job = record {
  id = txt "j1";
  service_name = txt "shop";
  resource = txt "postgres";
  status = ready;
  detail = [];
  attempts = pos 1;
  connection = none;
  http = none;
  created_at = 1;
  updated_at = 2;
}

abbrev broker : Server MemStore
broker = record {
  store = memory_store;
  queue = record {
    enqueue = λ id a w. (none, w);
    dequeue = λ c b w. (ok none, w);
    reclaim = λ c i n w. (ok [], w);
    ack = λ m w. (none, w);
    dead_letter = λ m d n w. (none, w);
    list_dead = λ n w. (ok [], w);
  };
  now = λ w. (5, w);
  random = λ n w. ([], w);
}

abbrev holding : MemStore
holding = record { jobs = (txt "j1", job) ∷ [] }

abbrev status_text : ℕ → Text
status_text n = txt "status"

broker-IsHost : IsHost (txt "broker:8080")
unfolding txt
broker-IsHost = grind arith

list_served_example :
    (shown : List Job) × ((list (network broker status_text) (txt "broker:8080") holding).0
      ≡ ok shown)
    × Perm shown (job ∷ [])
    × IsSorted older shown
unfolding Mem.list
list_served_example =
    list_served broker status_text (txt "broker:8080") holding (job ∷ []) broker-IsHost refl
