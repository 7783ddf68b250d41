-- ===== src/Node/Ledger/Reads.antt =====
-- The reading loop of `read_from`, crates/mabel-node/src/ledger.rs: how long its result is, what
-- leaves it as it was, and a run that follows another.
use mabel.Base.{
  ℕ, zero, suc, ◌+◌, ◌<◌, ◌^◌, Option, none, some, if◌then◌else◌, List, [], ◌∷◌, ◌++◌, ◌≡◌, refl,
  sym, ap, arith, ◌∙◌,
}
use mabel.Base.Bytes.{Bytes, length}
use mabel.Base.Map.{Map, get}
use mabel.Node.Ledger.{push, Answer, NewEvent, StoredEvent, next_u64, at_limit, read_event}

-- The event as it is read back.
unfoldable pub stored_as : NewEvent → StoredEvent
stored_as event = record { seq = event.seq; bytes = event.bytes }

pub read_event-some :
    (seq : ℕ) (b : Bytes) (events : Map Bytes)
    → get seq events ≡ some b
    → read_event seq events ≡ Answer.answer b
unfolding read_event
read_event-some seq b events e = ground (arith, e)

pub read_event-answers :
    (seq : ℕ) (b : Bytes) (events : Map Bytes)
    → read_event seq events ≡ Answer.answer b
    → get seq events ≡ some b
unfolding read_event
read_event-answers seq b events e = ground (arith, e)

pub push-answers :
    (seq : ℕ) (read : Answer Bytes) (rest : Answer (List StoredEvent)) (out : List StoredEvent)
    → push seq read rest ≡ Answer.answer out
    → (b : Bytes) × (events : List StoredEvent) × (read ≡ Answer.answer b)
      × (rest ≡ Answer.answer events)
      × ((record { seq = seq; bytes = b }) ∷ events ≡ out)
unfolding push
push-answers seq (Answer.refused error) rest out e = cc
push-answers seq Answer.endless rest out e = cc
push-answers seq (Answer.answer b) Answer.endless out e = cc
push-answers seq (Answer.answer b) (Answer.refused error) out e = cc
push-answers seq (Answer.answer b) (Answer.answer events) out e = (b, events, refl, refl, cc)

-- The loop on a head whose next sequence does not wrap, with `left` passes to go.
unfoldable pub read_run :
    (left seq : ℕ) → Option ℕ → (pushed : ℕ) → Map Bytes → Answer (List StoredEvent)
unfolding read_event push
read_run zero seq limit pushed events = Answer.answer []
read_run (suc left) seq limit pushed events =
    let rest = read_run left (next_u64 seq) limit (suc pushed) events in
    if at_limit limit pushed then Answer.answer [] else push seq (read_event seq events) rest

-- A pass without a limit that answers has read an event, and the passes behind it answer.
pub read_run-suc :
    (left seq pushed : ℕ) (events : Map Bytes) (out : List StoredEvent)
    → read_run (suc left) seq none pushed events ≡ Answer.answer out
    → (b : Bytes) × (rest : List StoredEvent) × (get seq events ≡ some b)
      × (read_run left (next_u64 seq) none (suc pushed) events ≡ Answer.answer rest)
      × ((record { seq = seq; bytes = b }) ∷ rest ≡ out)
unfolding read_run
read_run-suc left seq pushed events out e =
    let (b, rest, read, behind, made) =
      push-answers seq (read_event seq events)
        (read_run left (next_u64 seq) none (suc pushed) events) out e in
    (b, rest, read_event-answers seq b events read, behind, made)

pub read_run-put :
    (left seq pushed : ℕ) (b : Bytes) (events : Map Bytes) (rest : List StoredEvent)
    → get seq events ≡ some b
    → read_run left (next_u64 seq) none (suc pushed) events ≡ Answer.answer rest
    → read_run (suc left) seq none pushed events
      ≡ Answer.answer ((record { seq = seq; bytes = b }) ∷ rest)
unfolding read_run push
read_run-put left seq pushed b events rest e e' = let read = read_event-some seq b events e in cc

read_run-zero :
    (seq pushed : ℕ) (events : Map Bytes) (out : List StoredEvent)
    → read_run zero seq none pushed events ≡ Answer.answer out
    → [] ≡ out
unfolding read_run
read_run-zero seq pushed events out e = cc

-- The events of a run that was read are read again from files that hold them still.
pub read_run-grows :
    (left seq pushed : ℕ) (events events' : Map Bytes) (out : List StoredEvent)
    → ((k : ℕ) (b : Bytes) → get k events ≡ some b → get k events' ≡ some b)
    → read_run left seq none pushed events ≡ Answer.answer out
    → read_run left seq none pushed events' ≡ Answer.answer out
unfolding read_run
read_run-grows zero seq pushed events events' out held e = e
read_run-grows (suc left) seq pushed events events' out held e =
    let (b, rest, got, behind, made) = read_run-suc left seq pushed events out e in
    let ih = read_run-grows left (next_u64 seq) (suc pushed) events events' rest held behind in
    let again = read_run-put left seq pushed b events' rest (held seq b got) ih in
    again ∙ ap Answer.answer made

pub read_run-length :
    (left seq pushed : ℕ) (events : Map Bytes) (out : List StoredEvent)
    → read_run left seq none pushed events ≡ Answer.answer out
    → length out ≡ left
unfolding read_run
read_run-length zero seq pushed events out e = let nil : [] ≡ out = cc in sym (ap length nil)
read_run-length (suc left) seq pushed events out e =
    let (b, rest, got, behind, made) = read_run-suc left seq pushed events out e in
    let ih = read_run-length left (next_u64 seq) (suc pushed) events rest behind in
    sym (ap length made) ∙ ap suc ih

-- The number of events pushed matters to the limit alone.
pub read_run-pushed :
    (left seq pushed pushed' : ℕ) (events : Map Bytes)
    → read_run left seq none pushed events ≡ read_run left seq none pushed' events
unfolding read_run
read_run-pushed zero seq pushed pushed' events = refl
read_run-pushed (suc left) seq pushed pushed' events =
    ap (push seq (read_event seq events))
      (read_run-pushed left (next_u64 seq) (suc pushed) (suc pushed') events)

-- A run of `left` events, then one of `more`, is one run.
pub read_run-joins :
    (left more total seq start pushed : ℕ) (events : Map Bytes) (out out' : List StoredEvent)
    → start < 2 ^ 64
    → seq + left ≡ start
    → left + more ≡ total
    → read_run left seq none pushed events ≡ Answer.answer out
    → read_run more start none pushed events ≡ Answer.answer out'
    → read_run total seq none pushed events ≡ Answer.answer (out ++ out')
read_run-joins zero more total seq start pushed events out out' h s t e e' =
    let nil : [] ≡ out = read_run-zero seq pushed events out e in
    let all : more ≡ total = omega (arith, t) in
    let from : seq ≡ start = omega (arith, s) in
    let same : [] ++ out' ≡ out ++ out' = ap (λ xs. xs ++ out') nil in
    let plain : [] ++ out' ≡ out' = refl in cc
read_run-joins (suc left) more total seq start pushed events out out' h s t e e' =
    let (b, rest, got, behind, made) = read_run-suc left seq pushed events out e in
    let one : suc (left + more) ≡ total = omega (arith, t) in
    let again =
      read_run-joins left more (left + more) (next_u64 seq) start (suc pushed) events rest out' h
        (omega (arith, s, h)) refl behind
        (read_run-pushed more start (suc pushed) pushed events ∙ e') in
    let put = read_run-put (left + more) seq pushed b events (rest ++ out') got again in
    ap (λ n. read_run n seq none pushed events) (sym one)
    ∙ put
    ∙ ap (λ xs. Answer.answer (xs ++ out')) made
