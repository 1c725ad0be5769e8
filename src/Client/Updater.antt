-- ===== src/Client/Updater.antt =====
-- The updater of pkg/client/updater.go over the client's state: the published entry, the state machine
-- and the time of the last frame. Metrics and log lines are left out. `Fetch` and the channel belong to
-- the source, so that what they deliver is an argument. An entry's snapshot is of any type `S` with its
-- generation, and one step is a run of a handler that no other goroutine interrupts; but for
-- `apply_from`, where what `applyUpdate` loaded may be out of date.
pub mod Newest
pub mod Backed
pub mod Backoff
use feature_flag_service.Common.{
  ◌≡◌, ℕ, ◌+◌, ◌-◌, ◌*◌, ◌%◌, ◌^◌, ltb, leb, ℤ, pos, negsuc, ltb_ℤ, leb_ℤ, pos_part, eq_ℤ,
  incr_int64, Bool, true, false, not, ◌&&◌, ◌||◌, Bytes, codes, str_eq, is_empty, List, [], ◌∷◌,
  Option, none, some, if◌then◌else◌,
}
use feature_flag_service.Client.State.{
  Machine, new_state_machine, on_hydrated_from_disk, on_stream_dead, on_live_confirmation, close,
}

module _ {ℓ} (S : Type ℓ) where
  -- `entry`
  pub record Entry : Type ℓ where
    pub snap : S
    pub gen : ℤ
    pub instance_id : Bytes
    pub applied_at : ℤ
    pub from_disk : Bool

  -- `Update`
  pub record Update : Type ℓ where
    pub snapshot : Option S
    pub generation : ℤ
    pub instance_id : Bytes

  -- What the updater changes of `Client`; `writes` are the entries that `apply` queues for the disk.
  pub record Client : Type ℓ where
    pub l1 : Option Entry
    pub sm : Machine
    pub last_live : ℤ
    pub writes : List Entry

module _ {ℓ} {S : Type ℓ} where
  -- `IsHeartbeat`, of a frame's snapshot
  abbrev pub is_heartbeat : Option S → Bool
  is_heartbeat none = true
  is_heartbeat (some s) = false

  abbrev pub held_generation : Option (Entry S) → ℤ
  held_generation none = pos 0
  held_generation (some e) = e.gen

  -- `Client.Generation`
  unfoldable pub client_generation : Client S → ℤ
  client_generation c = held_generation c.l1

  -- `markLive`
  unfoldable pub mark_live : ℤ → Client S → Client S
  mark_live now c = record c { last_live = now }

  unfoldable pub instance_changed : Option (Entry S) → Update S → Bool
  instance_changed none up = false
  instance_changed (some e) up =
      not (is_empty e.instance_id)
      && not (is_empty up.instance_id)
      && not (str_eq e.instance_id up.instance_id)

  abbrev pub confirm : ℤ → ℤ → Client S → Client S
  confirm held source c = record c { sm = on_live_confirmation held source c.sm }

  -- `cache.apply`: the swap, and the write unless the entry came from disk.
  unfoldable pub cache_apply : Entry S → Client S → Client S
  cache_apply e c = record c {
    l1 = some e;
    writes = if e.from_disk then c.writes else e ∷ c.writes;
  }

  unfoldable pub install : ℤ → S → ℤ → Update S → Client S → Client S
  unfolding cache_apply on_live_confirmation
  install now snap gen up c = confirm gen up.generation (
      cache_apply
        (record {
          snap = snap;
          gen = gen;
          instance_id = up.instance_id;
          applied_at = now;
          from_disk = false;
        })
        c)

  -- The two guards of `applyUpdate` on the held entry: an older generation, and the one held already.
  abbrev pub is_older : Option (Entry S) → Update S → ℤ → Bool
  is_older none up gen = false
  is_older (some e) up gen = not (instance_changed (some e) up) && ltb_ℤ gen e.gen

  abbrev pub is_held : Option (Entry S) → Update S → ℤ → Bool
  is_held none up gen = false
  is_held (some e) up gen = not (instance_changed (some e) up) && eq_ℤ gen e.gen && not e.from_disk

  module _ (generation_of : S → ℤ) where
    -- What comes after the load, on what it gave; what is held may have changed since.
    unfoldable pub apply_loaded : Option (Entry S) → ℤ → S → Update S → Client S → Client S
    unfolding instance_changed install on_live_confirmation
    apply_loaded loaded now snap up c =
        let gen = generation_of snap in
        if is_older loaded up gen || is_held loaded up gen
        then confirm (held_generation loaded) gen c
        else install now snap gen up c

    abbrev pub apply_snapshot : ℤ → S → Update S → Client S → Client S
    apply_snapshot now snap up c = apply_loaded c.l1 now snap up c

    unfoldable pub apply_offer : ℤ → Option S → Update S → Client S → Client S
    unfolding apply_loaded client_generation on_live_confirmation
    apply_offer now none up c = confirm (client_generation c) up.generation c
    apply_offer now (some snap) up c = apply_snapshot now snap up c

    -- `applyUpdate` of a handler that loaded this entry earlier.
    abbrev pub offer_from : Option (Entry S) → ℤ → Option S → Update S → Client S → Client S
    offer_from loaded now none up c = confirm (held_generation c.l1) up.generation c
    offer_from loaded now (some snap) up c = apply_loaded loaded now snap up c

    unfoldable pub apply_from : Option (Entry S) → ℤ → Update S → Client S → Client S
    apply_from loaded now up c = offer_from loaded now up.snapshot up c

    -- `applyUpdate`, with no other handler between its load and its store.
    unfoldable pub apply_update : ℤ → Update S → Client S → Client S
    unfolding apply_offer
    apply_update now up c = apply_offer now up.snapshot up c

    -- `fetchOnce`, on what `Fetch` returned; `none` is an error.
    unfoldable pub fetch_once : ℤ → Option (Update S) → Client S → Client S × Bool
    unfolding apply_update mark_live
    fetch_once now none c = (c, false)
    fetch_once now (some up) c = (apply_update now up (mark_live now c), true)

    -- A heartbeat that tells of another instance or a newer generation is answered by a fetch.
    unfoldable pub needs_resync : Client S → Update S → Bool
    unfolding instance_changed client_generation
    needs_resync c up = instance_changed c.l1 up || ltb_ℤ (client_generation c) up.generation

    unfoldable pub on_frame : ℤ → Update S → Option (Update S) → Client S → Client S
    unfolding apply_update mark_live fetch_once needs_resync client_generation on_live_confirmation
    on_frame now up fetched c =
        let live = mark_live now c in
        if is_heartbeat up.snapshot
        then (if needs_resync live up
            then (fetch_once now fetched live).0
            else confirm (client_generation live) up.generation live)
        else apply_update now up live

    -- `hydrateFromL2`, on what `Load` returned.
    unfoldable pub hydrate : Option (S × ℤ) → Client S → Client S
    unfolding on_hydrated_from_disk
    hydrate none c = c
    hydrate (some (snap, written_at)) c = record c {
      l1 = some (record {
        snap = snap;
        gen = generation_of snap;
        instance_id = [];
        applied_at = written_at;
        from_disk = true;
      });
      sm = on_hydrated_from_disk c.sm;
    }

  -- `degrade`, by what the cache holds
  unfoldable pub degrade_held : Option (Entry S) → Bytes → Client S → Client S
  unfolding on_stream_dead
  degrade_held none reason c = c
  degrade_held (some e) reason c = record c { sm = on_stream_dead reason c.sm }

  unfoldable pub degrade : Bytes → Client S → Client S
  unfolding degrade_held
  degrade reason c = degrade_held c.l1 reason c

  unfoldable pub new_client : Client S
  unfolding new_state_machine
  new_client = record { l1 = none; sm = new_state_machine; last_live = pos 0; writes = [] }

-- `FullJitterBackoff`: the window of an attempt, in nanoseconds, from which a delay is drawn. The shift
-- of an int64 keeps 64 bits, and a negative outcome is taken for the greatest delay.
abbrev pub shifted : ℕ → ℕ → ℤ
shifted base attempt =
    let bits = (base * 2 ^ attempt) % 2 ^ 64 in
    if ltb bits (2 ^ 63) then pos bits else negsuc (2 ^ 64 - bits - 1)

abbrev pub max_attempt : ℕ
max_attempt = 30

-- `base` and `maxDelay` after the checks at the start; durations are int64.
abbrev pub backoff_base : ℤ → ℤ
backoff_base base = if leb_ℤ base (pos 0) then pos 100000000 else base

abbrev pub backoff_max : ℤ → ℤ → ℤ
backoff_max base max_delay =
    if ltb_ℤ max_delay (backoff_base base) then backoff_base base else max_delay

abbrev pub clamp_attempt : ℤ → ℕ
clamp_attempt (pos n) = if ltb max_attempt n then max_attempt else n
clamp_attempt (negsuc n) = 0

unfoldable pub backoff_window : ℤ → ℤ → ℤ → ℤ
backoff_window base max_delay attempt =
    let window = shifted (pos_part (backoff_base base)) (clamp_attempt attempt) in
    if ltb_ℤ (backoff_max base max_delay) window || leb_ℤ window (pos 0)
    then backoff_max base max_delay
    else window

-- The delay, where `draw n` is what `rand.Int64N` returns for `n`.
unfoldable pub full_jitter_backoff : (ℤ → ℤ) → ℤ → ℤ → ℤ → ℤ
unfolding backoff_window
full_jitter_backoff draw base max_delay attempt =
    draw (incr_int64 (backoff_window base max_delay attempt))
