-- ===== src/Host/GivenBack.antt =====
-- That no end point is given back to rudp-l4-protocol.cc twice, whatever the sockets do.
use rudpns.Prelude.{
  ℕ, ◌<◌, ◌≡◌, refl, Bool, true, false, ◌||◌, none, some, [], ◌∷◌, ◌++◌, Bool-cases, inl, inr,
  arith,
}
use mathlib.Core.Path.{subst}
use rudpns.Ns3.{
  Ns3, Env, Call, Trace, set_rx_callback, set_rx_callback6, set_destroy_callback,
  set_destroy_callback6, deallocate, deallocate6, delete_end_points, delete_end_points6,
}
use rudpns.Ns3.Owner.{
  Probe, at4, at6, owner, once, is_at, is_the_self, Same, EndPoint, ipv4_end_point, ipv6_end_point,
}
use rudpns.State.{Socket}
use rudpns.Socket.Binding.Owner.{IsFresh}
use rudpns.Host.{Host, Has, new_host, Reaches}
use rudpns.Host.Sharing.{holder, new-AllOwn}

module _ (N : Ns3) (is_it : Probe N) where
  -- A socket sets the receive callback of the end point, as it does with one that it is given.
  abbrev pub takes : Trace N → Bool
  takes [] = false
  takes (set_rx_callback e n ∷ t) = at4 N is_it e || takes t
  takes (set_rx_callback6 e n ∷ t) = at6 N is_it e || takes t
  takes (_ ∷ t) = takes t

  once-append : (later t : Trace N) → once N is_it (later ++ t) ≡ true → once N is_it t ≡ true
  once-append [] t e = e
  once-append (deallocate e ∷ later) t g = once-append later t (ground (arith, g))
  once-append (deallocate6 e ∷ later) t g = once-append later t (ground (arith, g))
  once-append (_ ∷ later) t g = once-append later t g

  -- If none does, the end point calls nobody still.
  owner-append :
      (between t : Trace N)
      → is_it.of_destroy ≡ false
      → owner N is_it t ≡ none
      → takes between ≡ false
      → owner N is_it (between ++ t) ≡ none
  owner-append [] t d o e = o
  owner-append (set_rx_callback x n ∷ b) t d o e = ground (arith, owner-append b t d o)
  owner-append (set_rx_callback6 x n ∷ b) t d o e = ground (arith, owner-append b t d o)
  owner-append (set_destroy_callback x n ∷ b) t d o e = ground (arith, owner-append b t d o e)
  owner-append (set_destroy_callback6 x n ∷ b) t d o e = ground (arith, owner-append b t d o e)
  owner-append (deallocate x ∷ b) t d o e = ground (arith, owner-append b t d o e)
  owner-append (deallocate6 x ∷ b) t d o e = ground (arith, owner-append b t d o e)
  owner-append (delete_end_points ∷ b) t d o e = ground (arith, owner-append b t d o e)
  owner-append (delete_end_points6 ∷ b) t d o e = ground (arith, owner-append b t d o e)
  owner-append (_ ∷ b) t d o e = owner-append b t d o e

module _ (N : Ns3) (same : Same N) where
  abbrev pub gives_back : EndPoint N → Call N
  gives_back (ipv4_end_point e) = deallocate e
  gives_back (ipv6_end_point e) = deallocate6 e

  -- Given back, it calls nobody.
  owner-gives_back :
      (ep : EndPoint N) (t : Trace N) → owner N (is_at N same ep) (gives_back ep ∷ t) ≡ none
  owner-gives_back (ipv4_end_point e) t = ground (arith, is_the_self same.same4 e)
  owner-gives_back (ipv6_end_point e) t = ground (arith, is_the_self same.same6 e)

  not_given_back :
      (ep : EndPoint N) (t : Trace N)
      → owner N (is_at N same ep) t ≡ none
      → once N (is_at N same ep) (gives_back ep ∷ t) ≡ false
  not_given_back (ipv4_end_point e) t o = ground (arith, is_the_self same.same4 e)
  not_given_back (ipv6_end_point e) t o = ground (arith, is_the_self same.same6 e)

  of_receive : (ep : EndPoint N) → (is_at N same ep).of_destroy ≡ false
  of_receive (ipv4_end_point e) = refl
  of_receive (ipv6_end_point e) = refl

module _ (N : Ns3) (E : Env N) (same : Same N)
    (fresh : (ep : EndPoint N) → IsFresh N E (is_at N same ep)) where
  -- Where allocation gives no end point that calls a socket, and in a state that an object and its
  -- sockets reach from its constructor: between two times that an end point is given back, of
  -- either family, a socket took it again. None is freed twice.
  pub Reaches-given_back :
      {h : Host N} (memory : ℕ → Socket N) (ep : EndPoint N) (later between earlier : Trace N)
      → Reaches N E (new_host N memory) h
      → h.calls ≡ later ++ gives_back N same ep ∷ (between ++ gives_back N same ep ∷ earlier)
      → takes N (is_at N same ep) between ≡ true
  Reaches-given_back memory ep later between earlier r e =
      let is_it = is_at N same ep in
      let tail = gives_back N same ep ∷ earlier in
      let given = (new-AllOwn N E (is_at N same) fresh memory r).given_once ep in
      let first : once N is_it (gives_back N same ep ∷ (between ++ tail)) ≡ true =
        once-append N is_it later _ (subst (λ t. once N is_it t ≡ true) e given) in
      elim (Bool-cases (takes N is_it between)) [
        | inl t ↦ t
        | inr f ↦
            let silent =
              owner-append N is_it between tail (of_receive N same ep)
                (owner-gives_back N same ep earlier) f in
            let no : ⊥ = cc (first, not_given_back N same ep (between ++ tail) silent) in absurd no
      ]

  -- Where allocation gives no end point that calls a socket, and in a state that an object and its
  -- sockets reach from its constructor: an end point that a socket has, of either family, was not
  -- given back since a socket took it last. No socket keeps an end point that was freed.
  pub Reaches-not_dangling :
      {h : Host N} (memory : ℕ → Socket N) (n : ℕ) (ep : EndPoint N) (later earlier : Trace N)
      → Reaches N E (new_host N memory) h
      → n < h.object.created
      → Has N ep (h.numbered n)
      → h.calls ≡ later ++ gives_back N same ep ∷ earlier
      → takes N (is_at N same ep) later ≡ true
  Reaches-not_dangling {h} memory n ep later earlier r below held e =
      let own = (new-AllOwn N E (is_at N same) fresh memory r).sockets n below in
      let called : owner N (is_at N same ep) (later ++ gives_back N same ep ∷ earlier) ≡ some n =
        subst (λ t. owner N (is_at N same ep) t ≡ some n) e
          (holder N same false n ep (h.numbered n) h.calls own held) in
      elim (Bool-cases (takes N (is_at N same ep) later)) [
        | inl t ↦ t
        | inr f ↦
            let silent =
              owner-append N (is_at N same ep) later (gives_back N same ep ∷ earlier)
                (of_receive N same ep) (owner-gives_back N same ep earlier) f in
            let no : ⊥ = cc (called, silent) in absurd no
      ]
