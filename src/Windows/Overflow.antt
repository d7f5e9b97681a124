-- ===== src/Windows/Overflow.antt =====
-- What follows when the channel of captured samples is full.
use camrtsp.Common.{◌≤◌, ◌≡◌, true, false, List, [], ◌∷◌, length}
use camrtsp.Windows.Callbacks.{ReaderState, ReadCall, on_read_sample}
use camrtsp.Windows.Worker.{WorkerState, step_back}

-- A callback that finds 16 samples waiting.
abbrev pub FindsFull : ReadCall → ReaderState → Type 0
FindsFull call s =
    (s.alive ≡ true) × (call.is_good ≡ true) × (call.type_changed ≡ false) × (16 ≤ length s.samples)

-- Further callbacks.
unfoldable pub call_back : List ReadCall → WorkerState → WorkerState
unfolding on_read_sample
call_back [] s = s
call_back (call ∷ calls) s = call_back calls (step_back call s)
