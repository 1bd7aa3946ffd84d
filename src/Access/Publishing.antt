-- ===== src/Access/Publishing.antt =====
-- Which handlers an event reaches, and in which order.
use agentra.Base.{ℕ, ◌≡◌, refl, List, [], ◌∷◌, ◌++◌, if◌then◌else◌, ◌==◌, arith}
use agentra.Access.Bus.{Event, Handler, Bus, subscribe, call, call_all, publish}

module _ {ℓ} {P S : Type ℓ} where
  call_all-snoc :
      (hs : List (Handler P S)) (h : Handler P S) (e : Event P) (s : S)
      → call_all (hs ++ h ∷ []) e s ≡ call h e (call_all hs e s)
  call_all-snoc [] h e s = refl
  call_all-snoc (g ∷ hs) h e s = call_all-snoc hs h e (call g e s)

  -- Publishing after a subscription calls the new handler after the handlers of its type and before
  -- the global ones, when the event is of its type, and is what it was when it is not; whether an
  -- earlier handler ended in a panic makes no difference.
  pub publish-subscribe :
      (b : Bus P S) (t : ℕ) (h : Handler P S) (e : Event P) (s : S)
      → publish (subscribe t h b) e s ≡ (
          if e.event_type == t
          then call_all b.global_handlers e (call h e (call_all (b.listeners e.event_type) e s))
          else publish b e s)
  unfolding publish subscribe
  publish-subscribe b t h e s = ground (arith, call_all-snoc (b.listeners e.event_type) h e s)
