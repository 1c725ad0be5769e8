-- ===== src/Config/Store/Subscribe.antt =====
-- The subscriptions of internal/config/store.go, the reader's receives, and the lock-free reads.
use feature_flag_service.Common.{
  ℤ, incr_int64, eq_ℤ, Bytes, codes, is_empty, List, [], ◌∷◌, Option, none, some, if◌then◌else◌,
  Map, lookup, insert,
}
use feature_flag_service.Core.Model.{Flag}
use feature_flag_service.Config.Layer.{BaseLayer, OverlayLayer, OpsLayer}
use feature_flag_service.Config.Snapshot.{
  FlagProvenance, ResolvedSnapshot, snapshot_flag, snapshot_provenance,
}
use feature_flag_service.Config.Store.State.{
  Layer, Subscription, EnvState, empty_env, Store, env_or_empty, ensure_env,
}

-- `subscribe`: a new channel, which holds the current snapshot, if there is one.
unfoldable pub subscribe_env : EnvState → EnvState × ℤ
subscribe_env st = (
  record st {
    subs = record { id = st.next_id; buffer = st.cur; taken = none } ∷ st.subs;
    next_id = incr_int64 st.next_id;
  },
  st.next_id,
)

unfoldable pub remove_sub : ℤ → List Subscription → List Subscription
remove_sub id [] = []
remove_sub id (sub ∷ subs) = if eq_ℤ sub.id id then subs else sub ∷ remove_sub id subs

-- The `cancel` that `subscribe` returns.
unfoldable pub cancel_env : ℤ → EnvState → EnvState
unfolding remove_sub
cancel_env id st = record st { subs = remove_sub id st.subs }

-- The reader's receive, which waits where the channel is empty.
abbrev pub receive : Subscription → Subscription
receive sub = elim sub.buffer [
  | none ↦ sub
  | some snap ↦ record sub { buffer = none; taken = some snap }
]

unfoldable pub receive_from : ℤ → List Subscription → List Subscription
receive_from id [] = []
receive_from id (sub ∷ subs) = (if eq_ℤ sub.id id then receive sub else sub) ∷ receive_from id subs

unfoldable pub receive_env : ℤ → EnvState → EnvState
unfolding receive_from
receive_env id st = record st { subs = receive_from id st.subs }

-- `Subscribe`
unfoldable pub subscribe : Bytes → Store → Store × ℤ
unfolding subscribe_env ensure_env
subscribe env s =
    let t = ensure_env env s in
    let (st, id) = subscribe_env (env_or_empty (lookup env t.envs)) in
    (record t { envs = insert env st t.envs }, id)

-- A change of one slot that is there; the goroutine of a reader has the slot by its pointer.
abbrev pub at_env : (EnvState → EnvState) → Bytes → Store → Store
at_env change env s = elim (lookup env s.envs) [
  | none ↦ s
  | some st ↦ record s { envs = insert env (change st) s.envs }
]

unfoldable pub cancel : Bytes → ℤ → Store → Store
unfolding cancel_env
cancel env id s = at_env (cancel_env id) env s

unfoldable pub receive_next : Bytes → ℤ → Store → Store
unfolding receive_env
receive_next env id s = at_env (receive_env id) env s

-- `Snapshot`
abbrev pub current : Option EnvState → Option ResolvedSnapshot
current none = none
current (some st) = st.cur

unfoldable pub store_snapshot : Store → Bytes → Option ResolvedSnapshot
store_snapshot s env = current (lookup env s.envs)

abbrev pub flag_of : Option ResolvedSnapshot → Bytes → Option Flag
flag_of none name = none
flag_of (some snap) name = snapshot_flag snap name

-- `Get`
unfoldable pub get_flag : Store → Bytes → Bytes → Option Flag
unfolding store_snapshot
get_flag s name env = flag_of (store_snapshot s env) name

abbrev pub provenance_of : Option ResolvedSnapshot → Bytes → Option FlagProvenance
provenance_of none name = none
provenance_of (some snap) name = snapshot_provenance snap name

-- `Provenance`
unfoldable pub store_provenance : Store → Bytes → Bytes → Option FlagProvenance
unfolding store_snapshot
store_provenance s name env = provenance_of (store_snapshot s env) name

-- `RawLayers` and `LastRejected`
unfoldable pub raw_layers : Store → Option BaseLayer × Map OverlayLayer × Map OpsLayer
raw_layers s = (s.base, s.overlays, s.ops)

unfoldable pub last_rejected_layer : Store → Bytes → Option Layer
last_rejected_layer s key = lookup key s.last_rejected

-- The table of `WithEnvironments`; an empty name is skipped.
unfoldable pub env_table : List Bytes → Map EnvState → Map EnvState
env_table [] m = m
env_table (env ∷ envs) m = env_table envs (if is_empty env then m else insert env empty_env m)

abbrev pub default_environments : List Bytes
default_environments = codes "dev" ∷ codes "staging" ∷ codes "prod" ∷ []

-- `New` with `WithEnvironments(envs...)`, where `default_environments` is what it takes without.
unfoldable pub new_store : List Bytes → Store
unfolding env_table
new_store envs = record {
  base = none;
  overlays = [];
  ops = [];
  last_rejected = [];
  envs = env_table envs [];
}
