-- ===== src/Server/Replies/Arriving.antt =====
-- In which order the actions of a handler reach the server of lib/fast_server.js.
use node_fast.Base.{
  ℕ, zero, suc, ◌+◌, ◌≡◌, refl, sym, ap, ◌∙◌, Bool, true, false, ◌&&◌, Option, none, some, List, [],
  ◌∷◌, ◌++◌, take, drop, length, is_some, if◌then◌else◌, append_assoc, append-nil, arith,
}
use node_fast.Json.{Json, is_object}
use node_fast.Server.State.{Request, RpcError}
use node_fast.Server.Response.{data_message}
use node_fast.Server.Replies.{
  Action, write, finish, fail, set_timeout, set_immediate, writes, arrivals, only_writes, is_reply,
  reply_messages, written, failure, delivered, answer,
}

-- How a reply ends: with the end of the context, or with its failure and what is written too late.
abbrev pub ending : Option RpcError → List Json → List Action
ending none late = finish ∷ []
ending (some e) late = fail e ∷ writes late

-- The first `count` values, or all of them.
abbrev portion : Bool → ℕ → List Json → List Json
portion fails count vs = if fails then take count vs else vs

portion-append :
    (b : Bool) (n : ℕ) (xs ys : List Json)
    → portion b (length xs + n) (xs ++ ys) ≡ xs ++ portion b n ys
portion-append false n xs ys = refl
portion-append true n [] ys = let same : 0 + n ≡ n = omega arith in ap (λ m. take m ys) same
portion-append true n (x ∷ xs) ys =
    let same : length (x ∷ xs) + n ≡ suc (length xs + n) = omega arith in
    ap (λ m. take m (x ∷ xs ++ ys)) same ∙ ap (λ l. x ∷ l) (portion-append true n xs ys)

writes-append :
    (xs ys : List Json) (rest : List Action)
    → writes xs ++ (writes ys ++ rest) ≡ writes (xs ++ ys) ++ rest
writes-append [] ys rest = refl
writes-append (x ∷ xs) ys rest = ap (λ l. write x ∷ l) (writes-append xs ys rest)

take-drop : (n : ℕ) (xs : List Json) → take n xs ++ drop n xs ≡ xs
take-drop zero xs = refl
take-drop (suc n) [] = refl
take-drop (suc n) (x ∷ xs) = ap (λ l. x ∷ l) (take-drop n xs)

-- After a failure there is nothing but objects that come too late.
late_writes :
    (pace : ℕ → ℕ) (k : ℕ) (queue : List Json) (acts : List Action)
    → only_writes acts ≡ true
    → (late : List Json) × (arrivals pace k queue acts ≡ writes late)
unfolding arrivals
late_writes pace k queue [] e = (queue, refl)
late_writes pace k queue (write v ∷ rest) e =
    let waiting = queue ++ v ∷ [] in
    let (late, f) = late_writes pace (suc k) (drop (pace k) waiting) rest e in
    (
      take (pace k) waiting ++ late,
      ap (λ l. writes (take (pace k) waiting) ++ l) (f ∙ sym (append-nil (writes late)))
          ∙ writes-append (take (pace k) waiting) late []
          ∙ append-nil _,
    )
late_writes pace k queue (finish ∷ rest) e = cc
late_writes pace k queue (fail x ∷ rest) e = cc
late_writes pace k queue (set_timeout ms ∷ rest) e = cc
late_writes pace k queue (set_immediate ∷ rest) e = cc

-- The actions arrive as some of the values, and then the ending.
abbrev Arrives : List Json → Option RpcError → List Action → Type 0
Arrives vs o arrived =
    (count : ℕ) × (late : List Json) × (arrived
      ≡ writes (portion (is_some o) count vs) ++ ending o late)

-- The encoder takes some of the objects that wait.
after_taking :
    (p : ℕ) (waiting vs : List Json) (o : Option RpcError) (arrived : List Action)
    → Arrives (drop p waiting ++ vs) o arrived
    → Arrives (waiting ++ vs) o (writes (take p waiting) ++ arrived)
after_taking p waiting vs o arrived (count, late, e) =
    let taken = take p waiting in
    let whole : taken ++ (drop p waiting ++ vs) ≡ waiting ++ vs =
      sym (append_assoc taken (drop p waiting) vs) ∙ ap (λ l. l ++ vs) (take-drop p waiting) in
    (
      length taken + count,
      late,
      ap (λ l. writes taken ++ l) e
          ∙ writes-append taken _ (ending o late)
          ∙ ap (λ l. writes l ++ ending o late)
              (sym (portion-append (is_some o) count taken (drop p waiting ++ vs))
                ∙ ap (portion (is_some o) (length taken + count)) whole),
    )

queued-Arrives :
    (pace : ℕ → ℕ) (k : ℕ) (queue : List Json) (acts : List Action)
    → is_reply acts ≡ true
    → Arrives (queue ++ written acts) (failure acts) (arrivals pace k queue acts)
unfolding arrivals
queued-Arrives pace k queue [] e = cc
queued-Arrives pace k queue (write v ∷ rest) e =
    let waiting = queue ++ v ∷ [] in
    let more = queued-Arrives pace (suc k) (drop (pace k) waiting) rest (ground arith) in
    let (count, late, f) = after_taking (pace k) waiting (written rest) (failure rest) _ more in
    (
      count,
      late,
      f
          ∙ ap
              (λ l. writes (portion (is_some (failure rest)) count l) ++ ending (failure rest) late)
              (append_assoc queue (v ∷ []) (written rest)),
    )
queued-Arrives pace k queue (finish ∷ []) e =
    (0, [], ap (λ l. writes l ++ finish ∷ writes []) (sym (append-nil queue)))
queued-Arrives pace k queue (finish ∷ _ ∷ _) e = cc
queued-Arrives pace k queue (fail x ∷ rest) e =
    let (late, f) = late_writes pace (suc k) queue rest e in (0, late, ap (λ l. fail x ∷ l) f)
queued-Arrives pace k queue (set_timeout ms ∷ rest) e =
    after_taking (pace k) queue (written rest) (failure rest) _
      (queued-Arrives pace (suc k) (drop (pace k) queue) rest e)
queued-Arrives pace k queue (set_immediate ∷ rest) e =
    after_taking (pace k) queue (written rest) (failure rest) _
      (queued-Arrives pace (suc k) (drop (pace k) queue) rest e)

-- What arrives of a reply.
pub arrivals-eq :
    (pace : ℕ → ℕ) (acts : List Action)
    → is_reply acts ≡ true
    → (count : ℕ) × (late : List Json) × (arrivals pace 0 [] acts
        ≡ writes (delivered count acts) ++ ending (failure acts) late)
arrivals-eq pace acts e = queued-Arrives pace 0 [] acts e

abbrev are_objects : List Json → Bool
are_objects [] = true
are_objects (v ∷ vs) = is_object v && are_objects vs

take-are_objects : (n : ℕ) (vs : List Json) → are_objects vs ≡ true → are_objects (take n vs) ≡ true
take-are_objects zero vs e = refl
take-are_objects (suc n) [] e = refl
take-are_objects (suc n) (v ∷ vs) e = ground (arith, take-are_objects n vs)

written-are_objects :
    (acts : List Action) → is_reply acts ≡ true → are_objects (written acts) ≡ true
written-are_objects [] e = refl
written-are_objects (write v ∷ rest) e = ground (arith, written-are_objects rest)
written-are_objects (finish ∷ []) e = refl
written-are_objects (finish ∷ _ ∷ _) e = cc
written-are_objects (fail x ∷ rest) e = refl
written-are_objects (set_timeout ms ∷ rest) e = written-are_objects rest e
written-are_objects (set_immediate ∷ rest) e = written-are_objects rest e

delivered-are_objects :
    (count : ℕ) (acts : List Action)
    → is_reply acts ≡ true
    → are_objects (delivered count acts) ≡ true
delivered-are_objects count acts e = chosen (is_some (failure acts))
  where
    chosen : (b : Bool) → are_objects (portion b count (written acts)) ≡ true
    chosen true = take-are_objects count (written acts) (written-are_objects acts e)
    chosen false = written-are_objects acts e

only_writes-writes : (vs : List Json) → only_writes (writes vs) ≡ true
only_writes-writes [] = refl
only_writes-writes (v ∷ vs) = only_writes-writes vs

writes-is_reply :
    (vs late : List Json) (o : Option RpcError)
    → are_objects vs ≡ true
    → is_reply (writes vs ++ ending o late) ≡ true
writes-is_reply [] late none e = refl
writes-is_reply [] late (some x) e = only_writes-writes late
writes-is_reply (v ∷ vs) late o e = ground (arith, writes-is_reply vs late o)

pub delivered-is_reply :
    (count : ℕ) (late : List Json) (acts : List Action)
    → is_reply acts ≡ true
    → is_reply (writes (delivered count acts) ++ ending (failure acts) late) ≡ true
delivered-is_reply count late acts e =
    writes-is_reply (delivered count acts) late (failure acts) (delivered-are_objects count acts e)

pub failure-writes :
    (vs late : List Json) (o : Option RpcError) → failure (writes vs ++ ending o late) ≡ o
failure-writes [] late none = refl
failure-writes [] late (some x) = refl
failure-writes (v ∷ vs) late o = failure-writes vs late o

pub reply_messages-writes :
    (clock : ℕ → ℕ) (n : ℕ) (r : Request) (vs late : List Json) (o : Option RpcError)
    → reply_messages clock n r (writes vs ++ ending o late) ≡ answer clock n r vs o
reply_messages-writes clock n r [] late none = refl
reply_messages-writes clock n r [] late (some x) = refl
reply_messages-writes clock n r (v ∷ vs) late o =
    ap (λ l. data_message (clock n) r v ∷ l) (reply_messages-writes clock (suc n) r vs late o)
