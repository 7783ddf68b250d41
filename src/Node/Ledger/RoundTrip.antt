-- ===== src/Node/Ledger/RoundTrip.antt =====
-- `read_all` after `append`, crates/mabel-node/src/ledger.rs.
use mabel.Base.{
  [], ℕ, suc, ◌+◌, ◌-◌, ◌<◌, ◌^◌, Option, none, some, List, ◌∷◌, ◌++◌, map, ◌≡◌, refl, sym, ap, ◌∙◌,
  arith,
}
use mabel.Base.Bytes.{Bytes, length, length-append}
use mabel.Crypto.{Crypto}
use mabel.Node.Ledger.{
  Head, Answer, Files, NewEvent, StoredEvent, ◌>>=◌, write_head, cached_head, read_json,
}
use mabel.Node.Ledger.Append.{
  head, cached_or, next_seq, write_all, write_after, write_events, append, read_up_to, read_from,
  read_all,
}
use mabel.Node.Ledger.Steps.{bind-answers, head-events}
use mabel.Node.Ledger.Heads.{count, head-agrees}
use mabel.Node.Ledger.Writes.{write_all-keeps}
use mabel.Node.Ledger.Reads.{read_run, stored_as, read_run-grows, read_run-joins, read_run-length}
use mabel.Node.Ledger.Loop.{read_up_to-run, read_up_to-room}
use mabel.Node.Ledger.Journal.{read_run-written, write_after-answers, last_of-seq}

length-map : (events : List NewEvent) → length (map stored_as events) ≡ length events
length-map [] = refl
length-map (event ∷ events) = ap suc (length-map events)

pub next_seq-count : (h : Option Head) → count h < 2 ^ 64 → next_seq h ≡ count h
unfolding next_seq
next_seq-count none room = refl
next_seq-count (some h) room = omega (arith, room)

module _ (c : Crypto) (decode : Bytes → Option Bytes) where
  -- `read_all` once the head is written reads as many events as that head says.
  pub read_all-written :
      (now : ℕ) (h : Head) (files : Files)
      → suc h.seq < 2 ^ 64
      → read_all c decode now (write_head h files)
        ≡ (read_run (suc h.seq) 0 none 0 files.events, write_head h files)
  unfolding read_all read_from head cached_head read_json cached_or write_head ◌>>=◌
  read_all-written now h files room =
      let all : suc h.seq - 0 ≡ suc h.seq = omega arith in
      ap (λ out. (out, write_head h files))
        (read_up_to-run (some h) 0 none files.events room
          ∙ ap (λ n. read_run n 0 none 0 files.events) all)

  pub read_all-answers :
      (now : ℕ) (files : Files) (out : List StoredEvent) (u : Files)
      → read_all c decode now files ≡ (Answer.answer out, u)
      → (h : Option Head) × (head c decode now files ≡ (Answer.answer h, u))
        × (read_run (count h) 0 none 0 files.events ≡ Answer.answer out)
  unfolding read_all read_from
  read_all-answers now files out u e =
      let (h, t, s, e') = bind-answers (head c decode now files) _ out u e in
      let read : read_up_to h 0 none t.events ≡ Answer.answer out = cc in
      let end : t ≡ u = cc in
      let same = head-events c decode now files in
      let kept : t.events ≡ files.events = cc in
      let read' : read_up_to h 0 none files.events ≡ Answer.answer out =
        ap (read_up_to h 0 none) (sym kept) ∙ read in
      let room = read_up_to-room h files.events out read' in
      let all : count h - 0 ≡ count h = omega arith in
      (
        h,
        cc,
        ap (λ n. read_run n 0 none 0 files.events) (sym all)
            ∙ sym (read_up_to-run h 0 none files.events room)
            ∙ read',
      )

  -- The events of an accepted batch follow the events of a run that ended where it starts.
  write_after-run :
      (h : Option Head) (now : ℕ) (event : NewEvent) (events : List NewEvent) (files : Files)
      (x : Head) (u : Files) (old : List StoredEvent)
      → count h + suc (length events) < 2 ^ 64
      → read_run (count h) 0 none 0 files.events ≡ Answer.answer old
      → write_after c decode h now event events files ≡ (Answer.answer x, u)
      → read_run (suc x.seq) 0 none 0 u.events
        ≡ Answer.answer (old ++ map stored_as (event ∷ events))
  write_after-run h now event events files x u old room before e =
      let next = next_seq-count h (omega (arith, room)) in
      let (batch, wrote, seq) = write_after-answers c decode h now event events files x u e in
      let fits : next_seq h + suc (length events) < 2 ^ 64 = omega (arith, room, next) in
      let new =
        read_run-written c decode (next_seq h) 0 (event ∷ events) files.events files.events fits
          batch in
      let last = last_of-seq c decode (next_seq h) event events files.events fits batch in
      let grown =
        read_run-grows (count h) 0 0 files.events (write_all (event ∷ events) files.events) old
          (λ k b held.
            write_all-keeps c decode (next_seq h) (event ∷ events) files.events files.events k b
              batch held held)
          before in
      let joined =
        read_run-joins (count h) (suc (length events)) (suc x.seq) 0 (next_seq h) 0
          (write_all (event ∷ events) files.events) old (map stored_as (event ∷ events))
          (omega (arith, fits)) (omega (arith, next)) (omega (arith, next, last, seq)) grown new in
      ap (read_run (suc x.seq) 0 none 0) wrote ∙ joined

  -- Where `read_all` gave the events `old` and `append` then accepts a batch, `read_all` gives `old`
  -- followed by the batch, with the bytes that were offered, and changes nothing. The ledger is to
  -- end below 2^64 events. The head may have been in its cache or rebuilt, and the clock read
  -- anything.
  pub read_all-append :
      (t0 t1 t2 t3 : ℕ) (event : NewEvent) (events : List NewEvent) (files u0 u : Files)
      (old : List StoredEvent) (h : Option Head)
      → length old + length (event ∷ events) < 2 ^ 64
      → read_all c decode t0 files ≡ (Answer.answer old, u0)
      → append c decode t1 t2 (event ∷ events) files ≡ (Answer.answer h, u)
      → read_all c decode t3 u ≡ (Answer.answer (old ++ map stored_as (event ∷ events)), u)
  unfolding append write_events
  read_all-append t0 t1 t2 t3 event events files u0 u old h room before e =
      let (h0, headed, run) = read_all-answers t0 files old u0 before in
      let (x, u1, s1, e1) = bind-answers (write_events c decode t1 t2 event events files) _ h u e in
      let (h1, f, s2, e2) = bind-answers (head c decode t1 files) _ x u1 s1 in
      let counts = head-agrees c decode t0 t1 files h0 h1 u0 f headed s2 in
      let size = read_run-length (count h0) 0 0 files.events old run in
      let same = head-events c decode t1 files in
      let kept : f.events ≡ files.events = cc in
      let run' : read_run (count h1) 0 none 0 f.events ≡ Answer.answer old = cc in
      let all =
        write_after-run h1 t2 event events f x u1 old (omega (arith, counts, size, room)) run' e2 in
      let end : u ≡ write_head x u1 = cc in
      let long =
        read_run-length (suc x.seq) 0 0 u1.events (old ++ map stored_as (event ∷ events)) all in
      let both = length-append old (map stored_as (event ∷ events)) in
      let new = length-map (event ∷ events) in
      let read = read_all-written t3 x u1 (omega (arith, long, both, new, room)) in cc
