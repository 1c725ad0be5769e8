-- ===== src/Client/Updater/Backed.antt =====
-- What a client keeps over any sequence of events: the entry and what is queued for the disk fit
-- together, and the state that is reported fits what is held.
use feature_flag_service.Common.{◌≡◌, ℤ, pos, ◌<ℤ◌, false, Bytes, List, [], ◌∷◌, Option, none, some}
use feature_flag_service.Client.State.{Machine, serving, close}
use feature_flag_service.Client.Updater.{Entry, Update, Client, fetch_once, on_frame, degrade}

-- An event, with what the clock said: a frame, with what a fetch returned if it asked for one; a fetch
-- of the reconcile loop or of a new cycle; a stream that ended or fell silent; the end.
pub data Event {ℓ} (S : Type ℓ) : Type ℓ where
  frame : ℤ → Update S → Option (Update S) → Event S
  fetch : ℤ → Option (Update S) → Event S
  stream_lost : Bytes → Event S
  shutdown : Event S

module _ {ℓ} {S : Type ℓ} (generation_of : S → ℤ) where
  abbrev pub react : Event S → Client S → Client S
  react (frame now up fetched) c = on_frame generation_of now up fetched c
  react (fetch now result) c = (fetch_once generation_of now result c).0
  react (stream_lost reason) c = degrade reason c
  react shutdown c = record c { sm = close c.sm }

  abbrev pub react_all : List (Event S) → Client S → Client S
  react_all [] c = c
  react_all (e ∷ events) c = react_all events (react e c)

  abbrev pub last_queued : List (Entry S) → Option (Entry S)
  last_queued [] = none
  last_queued (e ∷ writes) = some e

  abbrev pub FitsWrites : Option (Entry S) → List (Entry S) → Type ℓ
  FitsWrites none writes = writes ≡ []
  FitsWrites (some e) writes =
      (e.gen ≡ generation_of e.snap) × (e.from_disk ≡ false → last_queued writes ≡ some e)

  abbrev pub FitsState : Option (Entry S) → Machine → Type 0
  FitsState none m = serving m.cur ≡ false
  FitsState (some e) m = Unit

  abbrev pub Fits : Client S → Type ℓ
  Fits c = FitsWrites c.l1 c.writes × FitsState c.l1 c.sm

  -- The source numbers its generations from one.
  abbrev pub IsNumbered : Update S → Type 0
  IsNumbered up = pos 0 <ℤ up.generation

  abbrev pub IsNumberedOption : Option (Update S) → Type 0
  IsNumberedOption none = Unit
  IsNumberedOption (some up) = IsNumbered up

  abbrev pub IsNumberedEvent : Event S → Type 0
  IsNumberedEvent (frame now up fetched) = IsNumbered up × IsNumberedOption fetched
  IsNumberedEvent (fetch now result) = IsNumberedOption result
  IsNumberedEvent (stream_lost reason) = Unit
  IsNumberedEvent shutdown = Unit
