-- ===== src/Invocation/Dispatcher/Delivery.antt =====
-- What is dispatched to a known id wakes the next waiter.
use maos_core.Common.{
  ◌++◌, false, List, [], ◌∷◌, Option, some, ltb, length, ◌≡◌, refl, Bool-cases, inl, inr, ◌∙◌,
}
use maos_core.Common.Decimal.{Text}
use maos_core.Common.TextEquality.{text_eq_refl}
use maos_core.Invocation.Dispatcher.{
  Dispatcher, capacity, payload, put, existing, listen, send, dispatch, Wakes, receive,
}

module _ {T : Type 0} where
  put_self : (id : Text) (ch : List T) (m : Text → Option (List T)) → put id ch m id ≡ some ch
  unfolding put
  put_self id ch m = rw (text_eq_refl id)

  listen-channel :
      (d : Dispatcher T) (id : Text)
      → d.closed ≡ false
      → ((listen d id).0.closed ≡ false)
        × ((listen d id).0.channels id ≡ some (existing (d.channels id)))
  unfolding listen
  listen-channel d id h = rw h (refl, put_self id (existing (d.channels id)) d.channels)

  dispatch-channel :
      (d : Dispatcher T) (id : Text) (p : T) (ch : List T)
      → d.closed ≡ false
      → d.channels id ≡ some ch
      → ((dispatch d id p).0.closed ≡ false) × ((dispatch d id p).0.channels id ≡ some (send ch p))
  unfolding dispatch
  dispatch-channel d id p ch h e = rw (h, e) (refl, put_self id (send ch p) d.channels)

  send-ne-nil : (ch : List T) (p : T) → (q : T) × (rest : List T) × (send ch p ≡ q ∷ rest)
  send-ne-nil [] p = (p, [], refl)
  send-ne-nil (q ∷ ch) p = elim (Bool-cases (ltb (length (q ∷ ch)) capacity)) [
    | inl e ↦ (q, ch ++ p ∷ [], rw e)
    | inr e ↦ (q, ch, rw e)
  ]

  -- No wake-up is lost: a payload that comes after Listen and before WaitFor leaves the channel
  -- with something to receive, also when the buffer is full, while the dispatcher is open.
  pub dispatch-Wakes :
      (d : Dispatcher T) (id : Text) (p : T)
      → d.closed ≡ false
      → (q : T) × (d' : Dispatcher T) × Wakes (dispatch (listen d id).0 id p).0 id d' (payload q)
  dispatch-Wakes d id p h =
      let (open', ch) = listen-channel d id h in
      let (open'', sent) =
        dispatch-channel (listen d id).0 id p (existing (d.channels id)) open' ch in
      let (q, rest, e) = send-ne-nil (existing (d.channels id)) p in
      (q, _, receive q rest open'' (sent ∙ rw e))
