-- ===== src/ClientAccess/Normal.antt =====
-- The policies that `new` builds: canonical entries, at least one allow rule, and no fault.
use authgate.Prelude.{
  ◌≡◌, ◌⊎◌, inl, inr, ◌≢◌, Bool, true, false, List, [], ◌∷◌, ◌++◌, Bytes, All, All-append, arith,
  Result, ok, err, >>=-eq-ok, if◌then◌else◌,
}
use authgate.ClientAccess.Normalize.{EntryError, normalize_domain, normalize_email}
use authgate.ClientAccess.Normalize.Canonical.{
  IsDomain, IsDomainEntry, IsAddress, normalize_domain-IsDomainEntry, normalize_email-IsAddress,
}
use authgate.ClientAccess.{
  Rules, DenyRules, Policy, PolicyError, wrap, mem, add, add_all, add_in_order, none_listed,
  check_listed, google_workspace_domains, email_domains, emails, deny, new,
}

-- Canonical entries, and at least one of them allows.
pub record IsNormal (p : Policy) : Type 0 where
  pub is_restricted : p.is_public ≡ false
  pub hosted : All IsDomain p.hosted_domains
  pub domains : All IsDomainEntry p.email_domains
  pub addresses : All IsAddress p.emails
  pub denied : All IsAddress p.deny_emails
  pub some_rule : (p.hosted_domains ≢ []) ⊎ (p.email_domains ≢ []) ⊎ (p.emails ≢ [])

wrap-eq-ok {ℓ} :
    {A : Type ℓ} (at : EntryError → PolicyError) (r : Result EntryError A) {a : A}
    → wrap at r ≡ ok a
    → r ≡ ok a
wrap-eq-ok at (ok a) h = cc
wrap-eq-ok at (err e) h = absurd (cc)

All-if :
    (P : Bytes → Type 0) (b : Bool) (xs ys : List Bytes)
    → All P xs
    → All P ys
    → All P (if b then xs else ys)
All-if P true xs ys h k = h
All-if P false xs ys h k = k

ok-injective : {E A : Type 0} {a b : A} → ◌≡◌ {A = Result E A} (ok a) (ok b) → a ≡ b
ok-injective e = cc

module _ (at : EntryError → PolicyError) (norm : Bytes → Result EntryError Bytes)
    (P : Bytes → Type 0) (good : (x y : Bytes) → norm x ≡ ok y → P y) where
  add_all-All : (xs set out : List Bytes) → All P set → add_all at norm xs set ≡ ok out → All P out
  unfolding add_all
  add_all-All [] set out h e = rw (ok-injective e) at h
  add_all-All (x ∷ xs) set out h e =
      let (y, step, rest) = >>=-eq-ok (wrap at (norm x)) _ e in
      add_all-All xs (add y set) out
        (All-if P (mem y set) set (y ∷ set) h (good x y (wrap-eq-ok at (norm x) step), h)) rest

normalize_domain_exact : (x y : Bytes) → normalize_domain x false ≡ ok y → IsDomain y
normalize_domain_exact x y e = choose (normalize_domain-IsDomainEntry x false y e)
  where
    choose : IsDomain y ⊎ ((false ≡ true) × IsDomainEntry y) → IsDomain y
    choose (inl h) = h
    choose (inr (h, _)) = cc

normalize_domain_wild : (x y : Bytes) → normalize_domain x true ≡ ok y → IsDomainEntry y
normalize_domain_wild x y e = choose (normalize_domain-IsDomainEntry x true y e)
  where
    choose : IsDomain y ⊎ ((true ≡ true) × IsDomainEntry y) → IsDomainEntry y
    choose (inl h) = inl h
    choose (inr (_, h)) = h

add_in_order-All :
    (xs kept out : List Bytes)
    → All IsDomainEntry kept
    → add_in_order xs kept ≡ ok out
    → All IsDomainEntry out
unfolding add_in_order
add_in_order-All [] kept out h e = rw (ok-injective e) at h
add_in_order-All (x ∷ xs) kept out h e =
    let (y, step, rest) = >>=-eq-ok (wrap email_domains (normalize_domain x true)) _ e in
    let entry =
      normalize_domain_wild x y (wrap-eq-ok email_domains (normalize_domain x true) step) in
    add_in_order-All xs (if mem y kept then kept else kept ++ y ∷ []) out
      (All-if IsDomainEntry (mem y kept) kept (kept ++ y ∷ []) h
        (All-append IsDomainEntry kept (y ∷ []) h (entry, tt)))
      rest

listed-nonempty : (xs : List Bytes) → none_listed xs ≡ false → xs ≢ []
listed-nonempty [] h e = cc
listed-nonempty (x ∷ xs) h e = cc

new_rules :
    (allow : Rules) (deny_rules : DenyRules) (p : Policy)
    → new allow deny_rules ≡ ok p
    → (p.is_public ≡ false) × ((p.hosted_domains ≢ []) ⊎ (p.email_domains ≢ []) ⊎ (p.emails ≢ []))
unfolding new check_listed
new_rules allow deny_rules p e = (
  ground arith,
  ground (
    arith,
    listed-nonempty p.hosted_domains,
    listed-nonempty p.email_domains,
    listed-nonempty p.emails,
  ),
)

-- The four loops of `new`, read off its result.
new_loops :
    (allow : Rules) (deny_rules : DenyRules) (p : Policy)
    → new allow deny_rules ≡ ok p
    → (add_all google_workspace_domains
          (λ e. normalize_domain e false)
          allow.google_workspace_domains
          []
        ≡ ok p.hosted_domains)
      × (add_in_order allow.email_domains [] ≡ ok p.email_domains)
      × (add_all emails normalize_email allow.emails [] ≡ ok p.emails)
      × (add_all deny normalize_email deny_rules.emails [] ≡ ok p.deny_emails)
unfolding new check_listed
new_loops allow deny_rules p e = ground arith

-- A policy that `new` accepts is not public, holds only canonical entries, and allows something.
pub new-IsNormal :
    (allow : Rules) (deny_rules : DenyRules) (p : Policy) → new allow deny_rules ≡ ok p → IsNormal p
new-IsNormal allow deny_rules p e =
    let (h1, h2, h3, h4) = new_loops allow deny_rules p e in
    let rules = new_rules allow deny_rules p e in
    record {
      is_restricted = rules.0;
      hosted =
          add_all-All google_workspace_domains _ IsDomain normalize_domain_exact
            allow.google_workspace_domains [] p.hosted_domains tt h1;
      domains = add_in_order-All allow.email_domains [] p.email_domains tt h2;
      addresses =
          add_all-All emails normalize_email IsAddress normalize_email-IsAddress allow.emails []
            p.emails tt h3;
      denied =
          add_all-All deny normalize_email IsAddress normalize_email-IsAddress deny_rules.emails []
            p.deny_emails tt h4;
      some_rule = rules.1;
    }
