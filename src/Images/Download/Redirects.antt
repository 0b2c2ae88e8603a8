-- ===== src/Images/Download/Redirects.antt =====
-- apps/tmdb-images/src/image.rs: where a download's requests go, and what it accepts.
use tmdb_mirror.Prelude.{
  ℕ, zero, suc, ◌≤◌, ◌<◌, ◌≡◌, refl, ◌⊎◌, inl, inr, true, false, ◌&&◌, List, [], ◌∷◌, Option, none,
  some, ltb, leb, ◌==◌, length, All, Result, ok, err, arith, Bool-cases,
}
use tmdb_mirror.Images.Header.Webp.{ImageError, TransportError}
use tmdb_mirror.Images.Payload.{Url}
use tmdb_mirror.Images.Download.{
  HttpResponse, DownloadPolicy, allows, detect_challenge, Fetched, ended, redirected,
  follow_location, on_response, on_get, behind_round, fetch_rounds, fetch_direct,
}

-- A response that is neither a redirect nor a challenge.
abbrev pub IsFinal : HttpResponse → Type 0
IsFinal r = ((r.status < 300) ⊎ (400 ≤ r.status)) × (detect_challenge r ≡ false)

abbrev pub FinalOnly : Result ImageError HttpResponse → Type 0
FinalOnly (err e) = Unit
FinalOnly (ok r) = IsFinal r

-- A round ends with a final response or an error, or goes on to an allowed URL if rounds are left.
abbrev RoundEnd : DownloadPolicy → ℕ → Fetched → Type 0
RoundEnd policy left (ended result) = FinalOnly result
RoundEnd policy left (redirected next) = (0 < left) × (allows policy next ≡ true)

follow-RoundEnd :
    (policy : DownloadPolicy) (left : ℕ) (location : Option Url)
    → 0 < left
    → RoundEnd policy left (follow_location policy location)
follow-RoundEnd policy left none h = tt
follow-RoundEnd policy left (some next) h = elim (Bool-cases (allows policy next)) [
  | inl good ↦ rw good (h, good)
  | inr bad ↦ rw bad tt
]

on_get-RoundEnd :
    (policy : DownloadPolicy) (left : ℕ) (r : Result TransportError HttpResponse)
    → RoundEnd policy left (on_get policy left r)
unfolding on_response
on_get-RoundEnd policy left (err e) = tt
on_get-RoundEnd policy left (ok r) = elim (Bool-cases (leb 300 r.status && ltb r.status 400)) [
  | inl redirect ↦ rw redirect (elim (Bool-cases (left == 0)) [
    | inl last ↦ rw last tt
    | inr more ↦ rw more (follow-RoundEnd policy left r.location (ground arith))
  ])
  | inr plain ↦ rw plain (elim (Bool-cases (detect_challenge r)) [
    | inl challenge ↦ rw challenge tt
    | inr good ↦ rw good (ground arith, good)
  ])
]

-- What the rounds of a download are: the first URL is the one given, each other is allowed, they
-- are not more than the rounds, and a response is final.
abbrev pub Fetches : DownloadPolicy → ℕ → Url → Result ImageError HttpResponse × List Url → Type 0
Fetches policy rounds url (result, []) = Unit {0} × (rounds ≡ 0) × FinalOnly result
Fetches policy rounds url (result, u ∷ urls) =
    (u ≡ url) × (length urls < rounds) × FinalOnly result × All (λ v. allows policy v ≡ true) urls

behind-Fetches :
    (policy : DownloadPolicy) (left : ℕ) (url : Url)
    (more : Url → Result ImageError HttpResponse × List Url)
    → ((next : Url) → Fetches policy left next (more next))
    → (step : Fetched) → RoundEnd policy left step
    → Fetches policy (suc left) url (behind_round more url step)
behind-Fetches policy left url more mores (ended result) h = (refl, omega arith, h, tt)
behind-Fetches policy left url more mores (redirected next) (some_left, allowed) =
    joined (more next) (mores next)
  where
    joined :
        (later : Result ImageError HttpResponse × List Url)
        → Fetches policy left next later
        → Fetches policy (suc left) url (later.0, url ∷ later.1)
    joined (result, []) (u, none_left, final) = absurd (omega arith)
    joined (result, v ∷ urls) (same, few, final, all_allowed) =
        (refl, omega arith, final, (rw same allowed, all_allowed))

module _ (get : ℕ → Url → Result TransportError HttpResponse) where
  rounds-Fetches :
      (policy : DownloadPolicy) (rounds n : ℕ) (url : Url)
      → Fetches policy rounds url (fetch_rounds get policy rounds n url)
  unfolding fetch_rounds
  rounds-Fetches policy zero n url = (tt, refl, tt)
  rounds-Fetches policy (suc left) n url =
      behind-Fetches policy left url (fetch_rounds get policy left (suc n))
        (λ next. rounds-Fetches policy left (suc n) next) (on_get policy left (get n url))
        (on_get-RoundEnd policy left (get n url))

  -- The requests behind `fetch_direct`: the first goes to the given URL, each other to an allowed
  -- one, they are at most one more than the redirects allowed, and a response that is returned is
  -- neither a redirect nor a challenge.
  pub fetch_direct-Fetches :
      (policy : DownloadPolicy) (url : Url)
      → Fetches policy (suc policy.max_redirects) url (fetch_direct get policy url)
  unfolding fetch_direct
  fetch_direct-Fetches policy url = rounds-Fetches policy (suc policy.max_redirects) 0 url
