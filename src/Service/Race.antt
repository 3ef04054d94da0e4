-- ===== src/Service/Race.antt =====
-- Client::call and Client::dispatch of src/rcllite/service.hpp on two threads: the caller that waits
-- for the response of one request, and the executor's thread that has a response with its sequence
-- number. What stands under a lock is one step; the steps of the two come in any order.
use rcllite.Prelude.{
  ℕ, ◌≡◌, ◌≢◌, ◌⊎◌, inl, inr, refl, arith, Bool, true, false, not, ◌||◌, none, some,
}
use rcllite.Prelude.OrderedMap
use rcllite.Prelude.OrderedMap.{number_key}
use rcllite.Service.Client.{Client, Pending, next_seq, register, forget}

pub data Caller : Type 0 where
  waiting timed_out returned thrown : Caller

pub data Dispatcher : Type 0 where
  arrived : Dispatcher
  holding : Pending → Dispatcher
  done : Dispatcher

-- The client, the two threads, and the promise on the caller's stack: whether it is there, whether
-- it has a value, and whether set_value was called on it when it was gone.
pub record Race : Type 0 where
  pub client : Client
  pub caller : Caller
  pub dispatcher : Dispatcher
  pub promise_alive : Bool
  pub is_set : Bool
  pub used_after_free : Bool

-- The pending request of call().
abbrev pub awaited : ℕ → Pending
awaited promise = record { on_response = none; sync_promise = some promise }

-- call() behind send_request, with the response on its way.
unfoldable pub sent_race : ℕ → Client → Race
unfolding register
sent_race promise c = record {
  client = register (awaited promise) c;
  caller = waiting;
  dispatcher = arrived;
  promise_alive = true;
  is_set = false;
  used_after_free = false;
}

pub data Step (seq : ℕ) (s : Race) : Race → Type 0 where
  -- future.get(), and the end of call()
  ready :
      s.caller ≡ waiting
      → s.is_set ≡ true
      → Step seq s (record s { caller = returned; promise_alive = false })
  -- wait_for gives up
  expire : s.caller ≡ waiting → s.is_set ≡ false → Step seq s (record s { caller = timed_out })
  -- pending_.erase(seq) under the lock, and the throw
  give_up :
      s.caller ≡ timed_out
      → Step seq s
          (record s { client = forget seq s.client; caller = thrown; promise_alive = false })
  -- The block of dispatch under the lock, where it finds the request, and where it does not.
  take_out :
      (p : Pending)
      → s.dispatcher ≡ arrived
      → OrderedMap.find seq s.client.pending ≡ some p
      → Step seq s (record s { client = forget seq s.client; dispatcher = holding p })
  pass :
      s.dispatcher ≡ arrived
      → OrderedMap.find seq s.client.pending ≡ none
      → Step seq s (record s { dispatcher = done })
  -- p.sync_promise->set_value(resp)
  set_promise :
      (p : Pending) (promise : ℕ)
      → s.dispatcher ≡ holding p
      → p.sync_promise ≡ some promise
      → Step seq s (record s {
        dispatcher = done;
        is_set = true;
        used_after_free = s.used_after_free || not s.promise_alive;
      })

pub data Reach (seq : ℕ) (first : Race) : Race → Type 0 where
  start : Reach seq first first
  later : {s t : Race} → Reach seq first s → Step seq s t → Reach seq first t

Caller-cases : (c : Caller) → (c ≡ waiting) ⊎ (c ≡ timed_out) ⊎ (c ≡ returned) ⊎ (c ≡ thrown)
Caller-cases waiting = inl refl
Caller-cases timed_out = inr (inl refl)
Caller-cases returned = inr (inr (inl refl))
Caller-cases thrown = inr (inr (inr refl))

-- What holds of every state that is reached.
record Inv (s : Race) : Type 0 where
  alive : s.promise_alive ≡ false → (s.caller ≢ waiting) × (s.caller ≢ timed_out)
  set_done : s.is_set ≡ true → s.dispatcher ≡ done
  returned_done : s.caller ≡ returned → s.dispatcher ≡ done
  freed_thrown : s.used_after_free ≡ true → s.caller ≡ thrown

-- set_value finds the promise gone only where call() has thrown.
freed :
    {s : Race} {p : Pending}
    → Inv s
    → s.dispatcher ≡ holding p
    → (s.used_after_free || not s.promise_alive) ≡ true
    → s.caller ≡ thrown
freed {s} i h e = elim (Caller-cases s.caller) [
  | inl w ↦ ground (arith, e, w, i.alive, i.freed_thrown)
  | inr (inl w) ↦ ground (arith, e, w, i.alive, i.freed_thrown)
  | inr (inr (inl w)) ↦ absurd (ground (arith, h, i.returned_done w))
  | inr (inr (inr w)) ↦ w
]

Step-Inv : (seq : ℕ) (s t : Race) → Inv s → Step seq s t → Inv t
Step-Inv seq s t i (ready w r) = record {
  alive = λ e. (λ p. ground arith, λ p. ground arith);
  set_done = λ e. i.set_done r;
  returned_done = λ e. i.set_done r;
  freed_thrown = λ e. absurd (ground (arith, w, i.freed_thrown e));
}
Step-Inv seq s t i (expire w r) = record {
  alive = λ e. absurd ((i.alive e).0 w);
  set_done = λ e. i.set_done e;
  returned_done = λ e. absurd (ground (arith, e));
  freed_thrown = λ e. absurd (ground (arith, w, i.freed_thrown e));
}
Step-Inv seq s t i (give_up w) = record {
  alive = λ e. (λ p. ground arith, λ p. ground arith);
  set_done = λ e. i.set_done e;
  returned_done = λ e. absurd (ground (arith, e));
  freed_thrown = λ e. refl;
}
Step-Inv seq s t i (take_out p a f) = record {
  alive = λ e. i.alive e;
  set_done = λ e. absurd (ground (arith, a, i.set_done e));
  returned_done = λ e. absurd (ground (arith, a, i.returned_done e));
  freed_thrown = λ e. i.freed_thrown e;
}
Step-Inv seq s t i (pass a f) = record {
  alive = λ e. i.alive e;
  set_done = λ e. refl;
  returned_done = λ e. refl;
  freed_thrown = λ e. i.freed_thrown e;
}
Step-Inv seq s t i (set_promise p promise h q) = record {
  alive = λ e. i.alive e;
  set_done = λ e. refl;
  returned_done = λ e. refl;
  freed_thrown = λ e. freed i h e;
}

sent_race-Inv : (promise : ℕ) (c : Client) → Inv (sent_race promise c)
unfolding sent_race
sent_race-Inv promise c = record {
  alive = λ e. absurd (ground (arith, e));
  set_done = λ e. absurd (ground (arith, e));
  returned_done = λ e. absurd (ground (arith, e));
  freed_thrown = λ e. absurd (ground (arith, e));
}

Reach-Inv : (seq : ℕ) (first s : Race) → Inv first → Reach seq first s → Inv s
Reach-Inv seq first s i start = i
Reach-Inv seq first s i (later {s = m} r st) = Step-Inv seq m s (Reach-Inv seq first m i r) st

-- However the caller of call() and the thread that dispatches its response take their steps,
-- set_value meets a promise that is gone only where call() has thrown its timeout.
pub used_after_free-thrown :
    (promise : ℕ) (c : Client) (s : Race)
    → Reach (next_seq c) (sent_race promise c) s
    → s.used_after_free ≡ true
    → s.caller ≡ thrown
used_after_free-thrown promise c s r e =
    (Reach-Inv (next_seq c) (sent_race promise c) s (sent_race-Inv promise c) r).freed_thrown e
