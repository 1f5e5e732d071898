-- ===== src/Cache/Ttl.antt =====
-- hub/hub_remote.go and settings/setter_func.go: how old the data of the cache may be.
use steampipe_postgres_fdw.Prelude.{
  if◌then◌else◌, Bool-cases, nat_eq, string_eq, value, ℕ, ◌-◌, ◌*◌, ◌≤◌, ◌<◌, String, ◌≡◌, refl,
  sym, ap, ◌∙◌, subst, inl, inr, true, none, some, arith,
}
use steampipe_postgres_fdw.Prelude.Int.{pos_part, neg_part, ◌+ℤ◌, ℤ, pos, negsuc, ◌-ℤ◌, ◌≤ℤ◌, ltb_ℤ}
use steampipe_postgres_fdw.Cache.Defs.{
  half_word, negated, saturated, second, word, signed, wrap, duration_seconds, CacheSettings,
  configured_ttl, cache_ttl, Outside, set_ttl, ttl_from,
}

-- The ttl, cut where it would reach back behind `clear`.
abbrev cut : ℤ → ℤ → ℤ → ℤ
cut now clear ttl = if ltb_ℤ (now -ℤ ttl) clear then now -ℤ clear else ttl

cut-fresh : (now clear ttl : ℤ) → clear ≤ℤ (now -ℤ cut now clear ttl)
unfolding ◌-ℤ◌
cut-fresh (pos a) (pos b) (pos c) = ground arith
cut-fresh (pos a) (pos b) (negsuc c) = ground arith
cut-fresh (pos a) (negsuc b) (pos c) = ground arith
cut-fresh (pos a) (negsuc b) (negsuc c) = ground arith
cut-fresh (negsuc a) (pos b) (pos c) = ground arith
cut-fresh (negsuc a) (pos b) (negsuc c) = ground arith
cut-fresh (negsuc a) (negsuc b) (pos c) = ground arith
cut-fresh (negsuc a) (negsuc b) (negsuc c) = ground arith

cut-below : (now clear ttl : ℤ) → cut now clear ttl ≤ℤ ttl
unfolding ◌-ℤ◌
cut-below (pos a) (pos b) (pos c) = ground arith
cut-below (pos a) (pos b) (negsuc c) = ground arith
cut-below (pos a) (negsuc b) (pos c) = ground arith
cut-below (pos a) (negsuc b) (negsuc c) = ground arith
cut-below (negsuc a) (pos b) (pos c) = ground arith
cut-below (negsuc a) (pos b) (negsuc c) = ground arith
cut-below (negsuc a) (negsuc b) (pos c) = ground arith
cut-below (negsuc a) (negsuc b) (negsuc c) = ground arith

-- A duration that has a negative: every int64 but the least.
abbrev pub IsDuration : ℤ → Type 0
IsDuration d = (pos_part d < half_word) × (neg_part d < half_word)

negated-exact : (d : ℤ) → IsDuration d → negated d ≡ pos 0 -ℤ d
unfolding negated wrap signed ◌-ℤ◌
negated-exact (pos n) h = ground arith
negated-exact (negsuc n) h = ground arith

add_negative : (now d : ℤ) → now +ℤ (pos 0 -ℤ d) ≡ now -ℤ d
unfolding ◌+ℤ◌ ◌-ℤ◌
add_negative (pos a) (pos b) = ground arith
add_negative (pos a) (negsuc b) = ground arith
add_negative (negsuc a) (pos b) = ground arith
add_negative (negsuc a) (negsuc b) = ground arith

distance-exact :
    (now clear ttl : ℤ)
    → IsDuration ttl
    → clear ≤ℤ now
    → ltb_ℤ (now -ℤ ttl) clear ≡ true
    → saturated (now -ℤ clear) ≡ now -ℤ clear
unfolding saturated ◌-ℤ◌
distance-exact (pos a) (pos b) (pos c) h l e = ground arith
distance-exact (pos a) (pos b) (negsuc c) h l e = ground arith
distance-exact (pos a) (negsuc b) (pos c) h l e = ground arith
distance-exact (pos a) (negsuc b) (negsuc c) h l e = ground arith
distance-exact (negsuc a) (pos b) (pos c) h l e = ground arith
distance-exact (negsuc a) (pos b) (negsuc c) h l e = ground arith
distance-exact (negsuc a) (negsuc b) (pos c) h l e = ground arith
distance-exact (negsuc a) (negsuc b) (negsuc c) h l e = ground arith

cache_ttl-cut :
    (now : ℤ) (s : CacheSettings)
    → IsDuration (configured_ttl s)
    → s.clear_time ≤ℤ now
    → cache_ttl now s ≡ cut now s.clear_time (configured_ttl s)
unfolding cache_ttl
cache_ttl-cut now s h l =
    let ttl = configured_ttl s in
    ap (λ x. if ltb_ℤ (now +ℤ x) s.clear_time then saturated (now -ℤ s.clear_time) else ttl)
      (negated-exact ttl h)
    ∙ ap (λ x. if ltb_ℤ x s.clear_time then saturated (now -ℤ s.clear_time) else ttl)
        (add_negative now ttl)
    ∙ elim (Bool-cases (ltb_ℤ (now -ℤ ttl) s.clear_time)) [
      | inl y ↦ rw y (distance-exact now s.clear_time ttl h l y)
      | inr n ↦ rw n refl
    ]

-- The ttl that a scan of the remote hub sends never reaches back behind the last cache clear, and it
-- is never more than the ttl of the settings, which is five minutes if none was set: if the clear
-- time is not in the future, and the ttl of the settings is not the least int64.
pub cache_ttl-fresh :
    (now : ℤ) (s : CacheSettings)
    → IsDuration (configured_ttl s)
    → s.clear_time ≤ℤ now
    → (s.clear_time ≤ℤ (now -ℤ cache_ttl now s)) × (cache_ttl now s ≤ℤ configured_ttl s)
cache_ttl-fresh now s h l =
    subst (λ t. (s.clear_time ≤ℤ (now -ℤ t)) × (t ≤ℤ configured_ttl s))
      (sym (cache_ttl-cut now s h l))
      (cut-fresh now s.clear_time (configured_ttl s), cut-below now s.clear_time (configured_ttl s))

duration-exact : (n : ℕ) → n ≤ 9223372036 → duration_seconds (pos n) ≡ pos (n * second)
unfolding duration_seconds wrap signed
duration-exact n h = ground arith

duration-negative :
    (n : ℕ) → 9223372036 < n → n ≤ 18446744073 → (m : ℕ) × (duration_seconds (pos n) ≡ negsuc m)
unfolding duration_seconds wrap signed
duration-negative n low high = (word - n * second - 1, ground arith)

module _ (out : Outside) where
  -- SetTtl of a number of seconds up to 9223372036, about 292 years, sets that ttl.
  pub set_ttl-exact :
      (json : String) (n : ℕ) (s : CacheSettings)
      → out.unmarshal_int json ≡ value (pos n)
      → n ≤ 9223372036
      → set_ttl out json s ≡ (none, record s { ttl = some (pos (n * second)) })
  unfolding set_ttl ttl_from
  set_ttl-exact json n s e h =
      ap (λ r. ttl_from r s) e ∙ ap (λ d. (none, record s { ttl = some d })) (duration-exact n h)

  -- SetTtl of a number of seconds from 9223372037 to 18446744073 sets a negative ttl, since the
  -- duration does not fit in 64 bits, and returns no error.
  pub set_ttl-negative :
      (json : String) (n : ℕ) (s : CacheSettings)
      → out.unmarshal_int json ≡ value (pos n)
      → 9223372036 < n
      → n ≤ 18446744073
      → (m : ℕ) × (set_ttl out json s ≡ (none, record s { ttl = some (negsuc m) }))
  unfolding set_ttl ttl_from
  set_ttl-negative json n s e low high =
      let d = duration-negative n low high in
      (d.0, ap (λ r. ttl_from r s) e ∙ ap (λ d. (none, record s { ttl = some d })) d.1)
