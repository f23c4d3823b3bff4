-- ===== src/NetworkInterface/Ageing.antt =====
-- libsponge/network_interface.cc: old addresses are forgotten.
use com_net_sponge.Prelude.{
  ℕ, ◌+◌, ◌-◌, ◌≤◌, ◌<◌, ◌≡◌, ◌⊎◌, ◌↔◌, ◌^◌, refl, ap, sym, ◌∙◌, inl, inr, true, false, Bool-cases,
  ltb, List, [], ◌∷◌, arith,
}
use com_net_sponge.Prelude.Words.{add64, sub64}
use com_net_sponge.NetworkInterface.{CacheEntry, NetworkInterface, expire_loop, tick}

differ : true ≡ false → 0 < 0
differ e = cc e

-- The entry is in the cache.
abbrev pub Held : ℕ × CacheEntry → List (ℕ × CacheEntry) → Type 0
Held x [] = true ≡ false
Held x (y ∷ m) = (x ≡ y) ⊎ Held x m

expire_loop-Held :
    (now : ℕ) (x : ℕ × CacheEntry) (m : List (ℕ × CacheEntry))
    → Held x (expire_loop now m) ↔ (Held x m × (ltb 30000 (sub64 now x.1.since) ≡ false))
unfolding expire_loop
expire_loop-Held now x [] = (λ h. cc h, λ h. h.0)
expire_loop-Held now x ((ip, entry) ∷ m) = elim (Bool-cases (ltb 30000 (sub64 now entry.since))) [
  | inl old ↦ rw old (
    λ h. (inr ((expire_loop-Held now x m).0 h).0, ((expire_loop-Held now x m).0 h).1),
    λ h. elim (h.0) [
      | inl e ↦ absurd (
          omega (
            arith,
            differ
                (sym (ap (λ (y : ℕ × CacheEntry). ltb 30000 (sub64 now y.1.since)) e ∙ old) ∙ h.1),
          ))
      | inr held ↦ (expire_loop-Held now x m).1 (held, h.1)
    ],
  )
  | inr young ↦ rw young (
    λ h. elim h [
      | inl e ↦ (inl e, ap (λ (y : ℕ × CacheEntry). ltb 30000 (sub64 now y.1.since)) e ∙ young)
      | inr held ↦
          (inr ((expire_loop-Held now x m).0 held).0, ((expire_loop-Held now x m).0 held).1)
    ],
    λ h. elim (h.0) [ inl e ↦ inl e | inr held ↦ inr ((expire_loop-Held now x m).1 (held, h.1)) ],
  )
]

age :
    (now since : ℕ)
    → now < 2 ^ 64
    → since ≤ now
    → (ltb 30000 (sub64 now since) ≡ false) ↔ (now - since ≤ 30000)
age now since b h = ground arith

-- After `tick` the cache holds an entry exactly when it held it before and its age, at the new time, is
-- at most 30 seconds; nothing is sent, and what waits keeps waiting.
pub tick_forgets :
    {D : Type 0} (n : NetworkInterface D) (ms ip : ℕ) (entry : CacheEntry)
    → n.current_time + ms < 2 ^ 64
    → entry.since ≤ n.current_time
    → (Held (ip, entry) (tick n ms).arp_cache
        ↔ (Held (ip, entry) n.arp_cache × (n.current_time + ms - entry.since ≤ 30000)))
      × ((tick n ms).frames_out ≡ n.frames_out)
      × ((tick n ms).pending_datagrams ≡ n.pending_datagrams)
unfolding tick
tick_forgets n ms ip entry b old =
    let now : add64 n.current_time ms ≡ n.current_time + ms = omega arith in
    let (is_young, young_is) = age (n.current_time + ms) entry.since b (omega arith) in
    let (kept, back) = expire_loop-Held (n.current_time + ms) (ip, entry) n.arp_cache in
    rw now ((λ h. ((kept h).0, is_young (kept h).1), λ h. back (h.0, young_is h.1)), refl, refl)
