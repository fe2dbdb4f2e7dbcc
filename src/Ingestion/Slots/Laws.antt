-- ===== src/Ingestion/Slots/Laws.antt =====
-- The semaphore of src/monitoring/agents/ingestion.py counts the connections that are not handled.
use dragontools.Common.{
  ◌≡◌, refl, ℕ, zero, suc, ◌+◌, Bool, true, false, ◌&&◌, some, ltb, if◌then◌else◌, arith, subst,
}
use dragontools.Ingestion.Slots.{
  Slots, concurrency, release, Fate, handled, closed, acquire, process_request,
  process_request_thread, connection, ending, Reachable, start, step,
}

abbrev pub IsBalanced : Slots → Type 0
IsBalanced s = s.free + s.running ≡ concurrency

release_below : (n m : ℕ) → n + suc m ≡ concurrency → release n ≡ some (suc n)
unfolding release
release_below n m h = ground arith

acquire-IsBalanced :
    (starts : Bool) (free running : ℕ) (t : Slots) (fate : Fate)
    → free + running ≡ concurrency
    → acquire starts free running ≡ some (t, fate)
    → IsBalanced t
unfolding acquire
acquire-IsBalanced starts zero running t fate b h = cc (b, h)
acquire-IsBalanced true (suc n) running t fate b h =
    let e : record { free = n; running = suc running } ≡ t = cc h in
    subst IsBalanced e (omega (arith, b))
acquire-IsBalanced false (suc n) running t fate b h =
    let e : record { free = suc n; running = running } ≡ t =
      cc (h, release_below n running (omega (arith, b))) in
    subst IsBalanced e b

-- In each state that the server reaches, the free places and the running threads make 16.
pub Reachable-IsBalanced : (s : Slots) → Reachable s → IsBalanced s
unfolding process_request process_request_thread
Reachable-IsBalanced s start = refl
Reachable-IsBalanced s (step r _ past (connection starts _ _ fate h)) =
    acquire-IsBalanced starts r.free r.running s fate (Reachable-IsBalanced r past) h
Reachable-IsBalanced s (step r _ past (ending others _ _ some_run h)) =
    let b = Reachable-IsBalanced r past in
    let e : record { free = suc r.free; running = others } ≡ s =
      cc (h, release_below r.free others (omega (arith, b, some_run))) in
    subst IsBalanced e (omega (arith, b, some_run))

places :
    (starts : Bool) (free running : ℕ)
    → free + running ≡ concurrency
    → (t : Slots) × (acquire starts free running
        ≡ some (t, if starts && ltb running concurrency then handled else closed))
unfolding acquire
places true zero running b = (record { free = 0; running = running }, ground arith)
places false zero running b = (record { free = 0; running = running }, refl)
places true (suc n) running b = (record { free = n; running = suc running }, ground arith)
places false (suc n) running b = (
  record { free = suc n; running = running },
  rw (acquire, release_below n running (omega (arith, b))),
)

-- In each state that the server reaches, a connection gets a result: it is closed exactly when 16 run
-- or its thread does not start. No release fails, and after a thread has ended the next connection
-- whose thread starts is handled.
pub process_request-total :
    (s : Slots)
    → Reachable s
    → ((starts : Bool)
        → (t : Slots) × (process_request starts s
            ≡ some (t, if starts && ltb s.running concurrency then handled else closed)))
      × ((others : ℕ)
          → s.running ≡ suc others
          → (t : Slots) × (u : Slots) × (process_request_thread others s ≡ some t)
            × (process_request true t ≡ some (u, handled)))
unfolding process_request process_request_thread acquire
process_request-total s past =
    let b = Reachable-IsBalanced s past in
    (
      λ starts. places starts s.free s.running b,
      λ others some_run.
          let e = release_below s.free others (omega (arith, b, some_run)) in
          (
            record { free = suc s.free; running = others },
            record { free = s.free; running = suc others },
            rw (process_request_thread, e),
            refl,
          ),
    )
