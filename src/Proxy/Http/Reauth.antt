-- ===== src/Proxy/Http/Reauth.antt =====
-- internal/proxy/http.go: the authentication of the requests on one connection, over time.
use go_proxy_server.Prelude.{
  ℕ, zero, suc, ◌+◌, ◌≤◌, ◌≡◌, refl, ap, sym, subst, ◌∙◌, ◌⊎◌, inl, inr, Bool, true, false, ◌||◌,
  if◌then◌else◌, List, [], ◌∷◌, some, All, get_elem?, arith,
}
use go_proxy_server.Proxy.Http.{
  Env, World, Request, Action, http_error, authenticates, serve, count_request, serve_requests,
}
use go_proxy_server.Proxy.Http.Guards.{Checked, serve-Good}

-- The request at place `j`, one of the last `n + 1` up to the place `i`, has authenticated itself.
abbrev pub Vouched : Env → List (Request × World) → ℕ → ℕ → Type 0
Vouched env inputs n i =
    (j : ℕ) × (req : Request) × (w : World) × (get_elem? inputs j ≡ some (req, w))
    × (authenticates env w req ≡ true)
    × (j ≤ i)
    × (i ≤ j + n)

-- What may be done for the request at place `i`.
abbrev pub Exchanged : Env → List (Request × World) → ℕ → List Action → Type 0
Exchanged env inputs i acts =
    (acts ≡ http_error 407 ∷ [])
    ⊎ (Vouched env inputs 100 i
        × (req : Request) × (w : World) × (get_elem? inputs i ≡ some (req, w))
        × (acts ≡ (serve env w req).0)
        × All (Checked env w req) acts)

count_lem :
    (flag : Bool) (count : ℕ)
    → count ≤ 100
    → ((count_request flag count).1 ≤ 100)
      × ((count_request flag count).0 ≡ true
          → (flag ≡ true) × ((count_request flag count).1 ≡ count + 1))
unfolding count_request
count_lem flag count h = (ground arith, λ e. (ground arith, ground arith))

-- The exchange at a place is the one for the first request, or one of those for the others.
place_lem :
    (allowed close : Bool) (own acts : List Action) (more : List (List Action)) (i : ℕ)
    → get_elem?
        (if allowed then own ∷ (if close then [] else more) else (http_error 407 ∷ []) ∷ [])
        i
      ≡ some acts
    → ((i ≡ 0) × (((allowed ≡ true) × (acts ≡ own)) ⊎ (acts ≡ http_error 407 ∷ [])))
      ⊎ ((m : ℕ) × (i ≡ suc m) × (allowed ≡ true) × (get_elem? more m ≡ some acts))
place_lem true close own acts more zero e = inl (refl, inl (refl, ground arith))
place_lem true true own acts more (suc m) e = absurd (ground arith)
place_lem true false own acts more (suc m) e = inr (m, refl, refl, e)
place_lem false close own acts more zero e = inl (refl, inr (ground arith))
place_lem false close own acts more (suc m) e = absurd (ground arith)

module _ (env : Env) (all : List (Request × World)) where
  -- What the flag and the count of a connection stand for, before the request at place `k`.
  abbrev Knows : Bool → ℕ → ℕ → Type 0
  Knows flag count k =
      (count ≤ 100)
      × (flag ≡ true
          → (j : ℕ) × (req : Request) × (w : World) × (get_elem? all j ≡ some (req, w))
            × (authenticates env w req ≡ true)
            × (suc j ≤ k)
            × (k ≤ suc j + count))

  vouch :
      (k n count : ℕ) (flag cached own : Bool) (req : Request) (w : World)
      → Knows flag count k
      → (cached ≡ true → (flag ≡ true) × (n ≡ count + 1))
      → get_elem? all k ≡ some (req, w)
      → authenticates env w req ≡ own
      → (cached || own) ≡ true
      → Vouched env all n k
  vouch k n count flag true own req w (bound, knows) c at a e =
      let (flagged, counted) = c refl in
      let (j, req', w', at', auth, before, near) = knows flagged in
      (j, req', w', at', auth, omega arith, omega arith)
  vouch k n count flag false own req w h c at a e = (k, req, w, at, a ∙ e, omega arith, omega arith)

  weaken : (n k : ℕ) → n ≤ 100 → Vouched env all n k → Vouched env all 100 k
  weaken n k h (j, req, w, at, auth, before, near) = (j, req, w, at, auth, before, omega arith)

  remember : (n k : ℕ) → n ≤ 100 → Vouched env all n k → Knows true n (suc k)
  remember n k h (j, req, w, at, auth, before, near) =
      (h, λ _. (j, req, w, at, auth, omega arith, omega arith))

  exchanged :
      (k n : ℕ) (req : Request) (w : World) (acts : List Action)
      → n ≤ 100
      → Vouched env all n k
      → get_elem? all k ≡ some (req, w)
      → acts ≡ (serve env w req).0
      → Exchanged env all k acts
  exchanged k n req w acts h v here own = inr (
    weaken n k h v,
    req,
    w,
    here,
    own,
    subst (λ l. All (Checked env w req) l) (sym own) (serve-Good env w req),
  )

  serve_requests-from :
      (inputs : List (Request × World)) (k count : ℕ) (flag : Bool)
      → ((m : ℕ) → get_elem? inputs m ≡ get_elem? all (k + m))
      → Knows flag count k
      → (i : ℕ) (acts : List Action)
      → get_elem? (serve_requests env flag count inputs) i ≡ some acts
      → Exchanged env all (k + i) acts
  unfolding serve_requests
  serve_requests-from [] k count flag at h i acts e = absurd (ground arith)
  serve_requests-from ((req, w) ∷ inputs) k count flag at h i acts e =
      let cached = (count_request flag count).0 in
      let n = (count_request flag count).1 in
      let allowed = cached || authenticates env w req in
      let (small, c) = count_lem flag count (h.0) in
      let here : get_elem? all k ≡ some (req, w) =
        subst (λ x. get_elem? all x ≡ some (req, w)) (omega arith) (sym (at 0)) in
      let v : allowed ≡ true → Vouched env all n k =
        vouch k n count flag cached (authenticates env w req) req w h c here refl in
      elim (place_lem allowed ((serve env w req).1) ((serve env w req).0) acts
        (serve_requests env true n inputs) i e) [
          | inl (first, inl (good, own)) ↦
              subst (λ x. Exchanged env all x acts) (omega arith)
                (exchanged k n req w acts small (v good) here own)
          | inl (first, inr refused) ↦ inl refused
          | inr (m, next, good, later) ↦
              let same_place : suc k + m ≡ k + i = omega arith in
              subst (λ x. Exchanged env all x acts) same_place
                (serve_requests-from inputs (suc k) n true
                  (λ j.
                    subst (λ x. get_elem? inputs j ≡ get_elem? all x) (omega arith) (at (suc j)))
                  (remember n k small (v good)) m acts later)
        ]

-- Whatever the requests on a connection and their surroundings, for each request that the handler
-- serves, one of the last 101 requests, this one included, has authenticated itself, by the client's
-- address or its credentials, at its own time; and what is done for a request is a 407 alone, or
-- what serving it does, in which a target is dialled only if the SSRF check has admitted the host of
-- the request, a tunnel is opened only on a connection whose address has been checked, and a request
-- is forwarded only on such a connection or an idle one, without the headers for the proxy.
pub serve_requests-Exchanged :
    (env : Env) (inputs : List (Request × World)) (i : ℕ) (acts : List Action)
    → get_elem? (serve_requests env false 0 inputs) i ≡ some acts
    → Exchanged env inputs i acts
serve_requests-Exchanged env inputs i acts e =
    subst (λ x. Exchanged env inputs x acts) (omega arith)
      (serve_requests-from env inputs inputs 0 0 false (λ m. ap (get_elem? inputs) (omega arith))
        (omega arith, λ f. absurd (ground arith)) i acts e)
