-- ===== src/Demo/Limits.antt =====
-- How much the handlers of lib/demo_server.js do at a client's word.
use node_fast.Base.{ℕ, ◌*◌, ◌≤◌, ◌≡◌, List, [], ◌∷◌, is_none, ltb, length}
use node_fast.Base.Int.{pos}
use node_fast.Json.{Json}
use node_fast.Server.Replies.{Action, set_timeout, written, failure}
use node_fast.Demo.Errors.{Errors}

-- At most 102400 values are written, and none exactly when the handler fails.
abbrev pub IsBounded : List Action → Type 0
IsBounded acts =
    (length (written acts) ≤ 102400) × (is_none (failure acts) ≡ ltb 0 (length (written acts)))

-- Every timer is set for a number of milliseconds that is not negative, and at most 30 minutes.
abbrev pub AreShort : List Action → Type 0
AreShort [] = Unit
AreShort (set_timeout ms ∷ rest) = ((n : ℕ) × (ms ≡ pos n) × (n ≤ 30 * 60 * 1000)) × AreShort rest
AreShort (_ ∷ rest) = AreShort rest
