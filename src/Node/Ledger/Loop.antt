-- ===== src/Node/Ledger/Loop.antt =====
-- The loop of `read_from`, crates/mabel-node/src/ledger.rs, below and at the last `u64`.
use mabel.Base.{
  ℕ, zero, suc, ◌-◌, ◌≤◌, ◌<◌, ◌^◌, true, Option, none, some, List, ◌≡◌, refl, ap, sym, ◌∙◌, inl,
  inr, arith, leb, ltb, Bool-cases,
}
use mabel.Base.Bytes.{Bytes}
use mabel.Base.Map.{Map}
use mabel.Node.Ledger.{Head, Answer, StoredEvent, push, next_u64, read_event, read_while, passes}
use mabel.Node.Ledger.Append.{read_up_to}
use mabel.Node.Ledger.Heads.{count}
use mabel.Node.Ledger.Reads.{read_run, push-answers}

-- Where no sequence up to the head wraps, the loop has the head's passes to go.
pub read_while-run :
    (left head_seq seq : ℕ) (limit : Option ℕ) (pushed : ℕ) (events : Map Bytes)
    → left ≡ suc head_seq - seq
    → suc head_seq < 2 ^ 64
    → read_while left head_seq seq limit pushed events ≡ read_run left seq limit pushed events
unfolding read_while read_run
read_while-run zero head_seq seq limit pushed events is room = ground (arith, is)
read_while-run (suc left) head_seq seq limit pushed events is room =
    let ih =
      read_while-run left head_seq (next_u64 seq) limit (suc pushed) events
        (omega (arith, is, room)) room in
    let inside : leb seq head_seq ≡ true = ground (arith, is) in ground (arith, ih, inside)

-- At the last `u64` a loop without a limit does not come to an end with an answer.
read_while-endless :
    (fuel head_seq seq pushed : ℕ) (events : Map Bytes) (out : List StoredEvent)
    → 2 ^ 64 ≤ suc head_seq
    → seq ≤ head_seq
    → read_while fuel head_seq seq none pushed events ≡ Answer.answer out
    → ⊥
unfolding read_while
read_while-endless zero head_seq seq pushed events out last inside e =
    let stays : leb seq head_seq ≡ true = ground (arith, inside) in
    absurd (ground (arith, stays, e))
read_while-endless (suc fuel) head_seq seq pushed events out last inside e =
    let stays : leb seq head_seq ≡ true = ground (arith, inside) in
    let rest = read_while fuel head_seq (next_u64 seq) none (suc pushed) events in
    let pushed_one : push seq (read_event seq events) rest ≡ Answer.answer out =
      ground (arith, stays, e) in
    let (b, page, read, behind, made) =
      push-answers seq (read_event seq events) rest out pushed_one in
    read_while-endless fuel head_seq (next_u64 seq) (suc pushed) events page last
      (omega (arith, last)) behind

pub read_up_to-run :
    (h : Option Head) (since : ℕ) (limit : Option ℕ) (events : Map Bytes)
    → count h < 2 ^ 64
    → read_up_to h since limit events ≡ read_run (count h - since) since limit 0 events
unfolding read_up_to read_run
read_up_to-run none since limit events room =
    let none_left : 0 - since ≡ 0 = omega arith in
    ap (λ n. read_run n since limit 0 events) (sym none_left)
read_up_to-run (some h) since limit events room =
    let all : passes h.seq since ≡ suc h.seq - since = ground (arith, room) in
    ap (λ n. read_while n h.seq since limit 0 events) all
    ∙ read_while-run (suc h.seq - since) h.seq since limit 0 events refl room

-- A ledger that is read as a whole has a next sequence.
pub read_up_to-room :
    (h : Option Head) (events : Map Bytes) (out : List StoredEvent)
    → read_up_to h 0 none events ≡ Answer.answer out
    → count h < 2 ^ 64
unfolding read_up_to
read_up_to-room none events out e = omega arith
read_up_to-room (some h) events out e = elim (Bool-cases (ltb (suc h.seq) (2 ^ 64))) [
  | inl room ↦ ground (arith, room)
  | inr last ↦ absurd (
      read_while-endless (passes h.seq 0) h.seq 0 0 events out (ground (arith, last)) (omega arith)
        e)
]
