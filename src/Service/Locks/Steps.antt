-- ===== src/Service/Locks/Steps.antt =====
-- The payment locks: every step keeps the invariant.
use rs8kvn_bot.Common.{
  ℕ, ◌+◌, ◌-◌, ◌<◌, ◌≡◌, ◌≢◌, arith, none, some, List, ◌∷◌, ◌++◌, ◌==◌, count_if, Option-cases, inl,
  inr, Bool-cases,
}
use rs8kvn_bot.Service.Locks.{
  Locks, Pc, idle, waiting, holding, leaving, Move, enter, acquire, time_out, release, leave,
  System, Step, pick, spawn, Reach, started, later, start, entry, register, drop_payment_waiter,
  set_lock, count_waiter,
}
use rs8kvn_bot.Service.Locks.Invariant.{refers, holds, Inv}
use rs8kvn_bot.Service.Locks.Counting.{
  count_moved, All-here, All-moved, All-removed, refers-none, holds_le,
}

abbrev put : ℕ → ℕ → Locks → Locks
put l tokens m = set_lock l (record (m.heap l) { tokens = tokens }) m

module _ (m : Locks) (before after : List Pc) where
  acquire-Inv :
      (id l : ℕ)
      → Inv m (before ++ (waiting id l ∷ after))
      → 0 < (m.heap l).tokens
      → Inv (put l ((m.heap l).tokens - 1) m) (before ++ (holding id l ∷ after))
  acquire-Inv id l inv free =
      let p = waiting id l in
      let p' = holding id l in
      let m' = put l ((m.heap l).tokens - 1) m in
      let e = All-here m before after p inv.entered in
      record {
        counted = λ a h. ground (arith, inv.counted a h, count_moved (refers a) before after p p');
        one_token =
            λ a h. ground (arith, inv.one_token a h, count_moved (holds a) before after p p');
        entered = All-moved m m' before after p p' (λ a b k. k) e inv.entered;
        live = λ a b h. ground (arith, inv.live a b h);
        own = inv.own;
      }

  release-Inv :
      (id l : ℕ)
      → Inv m (before ++ (holding id l ∷ after))
      → (m.heap l).tokens < 1
      → Inv (put l ((m.heap l).tokens + 1) m) (before ++ (leaving id l ∷ after))
  release-Inv id l inv free =
      let p = holding id l in
      let p' = leaving id l in
      let m' = put l ((m.heap l).tokens + 1) m in
      let e = All-here m before after p inv.entered in
      record {
        counted = λ a h. ground (arith, inv.counted a h, count_moved (refers a) before after p p');
        one_token =
            λ a h. ground (arith, inv.one_token a h, count_moved (holds a) before after p p');
        entered = All-moved m m' before after p p' (λ a b k. k) e inv.entered;
        live = λ a b h. ground (arith, inv.live a b h);
        own = inv.own;
      }

  time_out-Inv :
      (id l : ℕ)
      → Inv m (before ++ (waiting id l ∷ after))
      → Inv m (before ++ (leaving id l ∷ after))
  time_out-Inv id l inv =
      let p = waiting id l in
      let p' = leaving id l in
      let e = All-here m before after p inv.entered in
      record {
        counted = λ a h. ground (arith, inv.counted a h, count_moved (refers a) before after p p');
        one_token =
            λ a h. ground (arith, inv.one_token a h, count_moved (holds a) before after p p');
        entered = All-moved m m before after p p' (λ a b k. k) e inv.entered;
        live = inv.live;
        own = inv.own;
      }

  found-Inv :
      (id l : ℕ)
      → m.entries id ≡ some l
      → Inv m (before ++ (idle ∷ after))
      → Inv (set_lock l (count_waiter (m.heap l)) m) (before ++ (waiting id l ∷ after))
  found-Inv id l e inv =
      let p = idle in
      let p' = waiting id l in
      let m' = set_lock l (count_waiter (m.heap l)) m in
      record {
        counted = λ a h. ground (arith, inv.counted a h, count_moved (refers a) before after p p');
        one_token =
            λ a h. ground (arith, inv.one_token a h, count_moved (holds a) before after p p');
        entered = All-moved m m' before after p p' (λ a b k. k) e inv.entered;
        live = λ a b h. ground (arith, inv.live a b h);
        own = inv.own;
      }

  -- A new lock: nobody refers to its address yet.
  made-Inv :
      (id : ℕ)
      → m.entries id ≡ none
      → Inv m (before ++ (idle ∷ after))
      → Inv (register id m).1 (before ++ (waiting id m.next ∷ after))
  unfolding register entry
  made-Inv id e inv =
      let p = idle in
      let p' = waiting id m.next in
      let unseen : count_if (refers m.next) (before ++ (idle ∷ after)) ≡ 0 =
        refers-none m m.next (λ a k. omega (arith, inv.live a m.next k)) (before ++ (idle ∷ after))
          inv.entered in
      record {
        counted =
            λ a h. ground (arith, inv.counted a, count_moved (refers a) before after p p', unseen);
        one_token = λ a h. ground (
          arith,
          inv.one_token a,
          count_moved (holds a) before after p p',
          unseen,
          holds_le m.next (before ++ (idle ∷ after)),
        );
        entered =
            All-moved m (register id m).1 before after p p' (λ a b k. ground arith) (ground arith)
              inv.entered;
        live = λ a b h. ground (arith, inv.live a b);
        own = λ a b l h k. ground (arith, inv.own a b l, inv.live a l, inv.live b l);
      }

  kept-Inv :
      (id l : ℕ)
      → (m.heap l).waiters ≢ 1
      → Inv m (before ++ (leaving id l ∷ after))
      → Inv (drop_payment_waiter l id m) (before ++ (idle ∷ after))
  unfolding drop_payment_waiter
  kept-Inv id l more inv =
      let p = leaving id l in
      let p' = idle in
      let e = All-here m before after p inv.entered in
      record {
        counted = λ a h. ground (arith, inv.counted a, count_moved (refers a) before after p p');
        one_token = λ a h. ground (arith, inv.one_token a, count_moved (holds a) before after p p');
        entered =
            All-moved m (drop_payment_waiter l id m) before after p p' (λ a b k. ground arith) tt
              inv.entered;
        live = λ a b h. ground (arith, inv.live a b, inv.live id l e);
        own = λ a b c h k. ground (arith, inv.own a b c);
      }

  removed-Inv :
      (id l : ℕ)
      → (m.heap l).waiters ≡ 1
      → Inv m (before ++ (leaving id l ∷ after))
      → Inv (drop_payment_waiter l id m) (before ++ (idle ∷ after))
  unfolding drop_payment_waiter
  removed-Inv id l last inv =
      let p = leaving id l in
      let p' = idle in
      let e = All-here m before after p inv.entered in
      let (old, some_waiter) = inv.live id l e in
      let gone : count_if (refers l) (before ++ (idle ∷ after)) ≡ 0 =
        ground (arith, inv.counted l old, count_moved (refers l) before after p p') in
      record {
        counted = λ a h. ground (arith, inv.counted a, count_moved (refers a) before after p p');
        one_token = λ a h. ground (arith, inv.one_token a, count_moved (holds a) before after p p');
        entered =
            All-removed m (drop_payment_waiter l id m) id l e (λ a. ground arith)
              (before ++ (idle ∷ after)) gone
              (All-moved m m before after p p' (λ a b k. k) tt inv.entered);
        live = λ a b h. ground (arith, inv.live a b, inv.own a id l);
        own = λ a b c h k. ground (arith, inv.own a b c);
      }

  pub Move-Inv :
      {m' : Locks} {p p' : Pc}
      → Move m p m' p'
      → Inv m (before ++ (p ∷ after))
      → Inv m' (before ++ (p' ∷ after))
  unfolding register entry
  Move-Inv (enter id) inv = elim (Option-cases (m.entries id)) [
    | inl missing ↦ ground (arith, made-Inv id missing inv)
    | inr (l, e) ↦ ground (arith, found-Inv id l e inv)
  ]
  Move-Inv (acquire {id} {l} free) inv = acquire-Inv id l inv free
  Move-Inv (time_out {id} {l}) inv = time_out-Inv id l inv
  Move-Inv (release {id} {l} free) inv = release-Inv id l inv free
  Move-Inv (leave {id} {l}) inv = elim (Bool-cases ((m.heap l).waiters == 1)) [
    | inl last ↦ removed-Inv id l (ground arith) inv
    | inr more ↦ kept-Inv id l (ground arith) inv
  ]

spawn-Inv : (m : Locks) (ps : List Pc) → Inv m ps → Inv m (idle ∷ ps)
spawn-Inv m ps inv = record {
  counted = λ l h. ground (arith, inv.counted l h);
  one_token = λ l h. ground (arith, inv.one_token l h);
  entered = (tt, inv.entered);
  live = inv.live;
  own = inv.own;
}

start-Inv : Inv start.locks start.goroutines
start-Inv = record {
  counted = λ l h. absurd (omega arith);
  one_token = λ l h. absurd (omega arith);
  entered = tt;
  live = λ a l h. cc;
  own = λ a b l h k. cc;
}

Step-Inv : {s t : System} → Step s t → Inv s.locks s.goroutines → Inv t.locks t.goroutines
Step-Inv (pick {m} before after mv) inv = Move-Inv m before after mv inv
Step-Inv (spawn {m} {ps}) inv = spawn-Inv m ps inv

pub Reach-Inv : {s : System} → Reach s → Inv s.locks s.goroutines
Reach-Inv started = start-Inv
Reach-Inv (later r st) = Step-Inv st (Reach-Inv r)
