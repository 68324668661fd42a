-- ===== src/Future/Pending.antt =====
-- future/future.go: the callers of a future do not touch what its promise holds.
use golang_core.Prelude.{
  ℕ, ◌≡◌, refl, Bool, true, false, Option, none, some, Result, ok, err, List, if◌then◌else◌,
}
use golang_core.Prelude.Exec.{continue, pure, ◌>>◌}
use golang_core.Promise.{
  World, Op, Item, get_resolved_value, receive, add_channel, remove_channel, deregister, without,
  send, close, allocate, register,
}
use golang_core.Promise.Channels.{Chan, Fault, take_item}
use golang_core.Promise.Getter.{
  Getter, Ready, calling, first_look, selecting, second_look, leaving, awaiting, returned,
  by_channel, by_context, get_step, looked, after_removal, return_result,
}

module _ {T E : Type 0} where
  -- The promise but for its channels.
  pub record Same (w u : World T E) : Type 0 where
    pub value : u.promise.value ≡ w.promise.value
    pub error : u.promise.error ≡ w.promise.error
    pub resolved : u.promise.resolved ≡ w.promise.resolved

  same : (w : World T E) → Same w w
  same w = record { value = refl; error = refl; resolved = refl }

  pub continue_state :
      {A B : Type 0} (r : Result Fault A × World T E) (f : A → B)
      → (continue r (λ x. pure (f x))).1 ≡ r.1
  continue_state (ok a, w) f = refl
  continue_state (err e, w) f = refl

  continue-Same :
      {A B : Type 0} (w : World T E) (r : Result Fault A × World T E) (f : A → B)
      → Same w r.1
      → Same w (continue r (λ x. pure (f x))).1
  continue-Same w (ok a, u) f s = s
  continue-Same w (err e, u) f s = s

  bind-Same :
      {A B : Type 0} (w : World T E) (r : Result Fault A × World T E) (g : A → Op T E B)
      → Same w r.1
      → ((a : A) (u : World T E) → Same w u → Same w (g a u).1)
      → Same w (continue r g).1
  bind-Same w (ok a, u) g s h = h a u s
  bind-Same w (err e, u) g s h = s

  send-Same : (w u : World T E) (c : ℕ) (item : Item T E) → Same w u → Same w (send c item u).1
  send-Same w u c item s = record { value = s.value; error = s.error; resolved = s.resolved }

  close-Same : (w u : World T E) (c : ℕ) → Same w u → Same w (close c u).1
  close-Same w u c s = record { value = s.value; error = s.error; resolved = s.resolved }

  opened-Same :
      (b : Bool) (w : World T E) (item : Item T E) (c : ℕ)
      → Same w
          (if b
            then (send c item >> close c >> pure c) (allocate w)
            else pure c (register c (allocate w))).1
  opened-Same true w item c =
      continue-Same w (continue (send c item (allocate w)) (λ _. close c)) (λ _. c)
        (bind-Same w (send c item (allocate w)) (λ _. close c)
          (send-Same w (allocate w) c item (record { value = refl; error = refl; resolved = refl }))
          (λ a u s. close-Same w u c s))
  opened-Same false w item c = record { value = refl; error = refl; resolved = refl }

  pub add_channel-Same : (w : World T E) → Same w (add_channel w).1
  unfolding add_channel
  add_channel-Same w = opened-Same w.promise.resolved w (get_resolved_value true w.promise) w.next

  deregister-Same :
      (b : Bool) (c : ℕ) (cs : Option (List ℕ)) (w : World T E)
      → Same w (if b then pure false w else deregister c cs w).1
  deregister-Same true c cs w = same w
  deregister-Same false c none w = same w
  deregister-Same false c (some cs) w =
      continue-Same w (close c (record w { promise = record w.promise { channels = cs } }))
        (λ _. true)
        (close-Same w (record w { promise = record w.promise { channels = cs } }) c
          (record { value = refl; error = refl; resolved = refl }))

  remove_channel-Same : (c : ℕ) (w : World T E) → Same w (remove_channel c w).1
  unfolding remove_channel
  remove_channel-Same c w = deregister-Same w.promise.resolved c (without c w.promise.channels) w

module _ {T E : Type 0} (zero_value : T) where
  looked-Same :
      (w : World T E) (c : ℕ) (p : Getter T E)
      (x : Result Fault (Option (Item T E)) × Chan (Item T E))
      → Same w (looked zero_value w c p x).1
  looked-Same w c p (ok x, ch) = record { value = refl; error = refl; resolved = refl }
  looked-Same w c p (err f, ch) = same w

  received-Same :
      (c : ℕ) (w : World T E)
      → Same w (continue (receive c w) (λ x. pure {E = Fault} (return_result zero_value x))).1
  received-Same c w =
      continue-Same w (receive c w) (return_result zero_value)
        (record { value = refl; error = refl; resolved = refl })

  -- A step of `Get` changes at most the channels.
  pub get_step-Same :
      (r : Ready E) (p : Getter T E) (w : World T E) → Same w (get_step zero_value r p w).1
  get_step-Same r calling w = continue-Same w (add_channel w) first_look (add_channel-Same w)
  get_step-Same r (first_look c) w = looked-Same w c (selecting c) (take_item (w.heap c))
  get_step-Same by_channel (selecting c) w = received-Same c w
  get_step-Same (by_context e) (selecting c) w = same w
  get_step-Same r (second_look c e) w = looked-Same w c (leaving c e) (take_item (w.heap c))
  get_step-Same r (leaving c e) w =
      continue-Same w (remove_channel c w) (after_removal zero_value c e) (remove_channel-Same c w)
  get_step-Same r (awaiting c) w = received-Same c w
  get_step-Same r (returned v e) w = same w
