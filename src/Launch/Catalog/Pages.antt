-- ===== src/Launch/Catalog/Pages.antt =====
-- The pages of crates/agent-seat-x11/src/launch.rs that a client reads one after another.
use Prim.Native.Nat.add
use agent_seat_proto.Prelude.{
  ℕ, zero, suc, ◌+◌, ◌-◌, ◌^◌, ◌≡◌, ◌≤◌, ◌<◌, ◌∙◌, refl, ap, arith, false, Option, none, some, List,
  [], ◌∷◌, ◌++◌, map, length, take, drop, Result, ok, err, and_then, ltb-eq_false, lt→ltb,
  length-take_le, length-drop, take_short, ltb, ◌==◌, ltb→lt, Bool-cases, inl, inr,
  take-append-drop,
}
use agent_seat_proto.Proto.Bounded.{new_list}
use agent_seat_proto.Proto.Limits.{max_applications}
use agent_seat_proto.Proto.Requests.{ApplicationListRequest}
use agent_seat_proto.Proto.Page.{ApplicationDescriptor, ApplicationPage}
use agent_seat_proto.Launch.Catalog.{
  Failure, LaunchPolicy, CatalogEntry, discover, SessionCatalog, min, list_cached, descriptor_of,
  refresh, list,
}

abbrev pub at_cursor : ℕ → ℕ → ApplicationListRequest
at_cursor cursor limit = record { cursor = cursor; limit = limit }

abbrev page_of : List ApplicationDescriptor → Option ℕ → ApplicationPage
page_of applications next = record {
  applications = record { items = applications };
  next_cursor = next;
}

length-map {ℓ κ} :
    {A : Type ℓ} {B : Type κ} (f : A → B) (xs : List A) → length (map f xs) ≡ length xs
length-map f [] = refl
length-map f (x ∷ xs) = ap suc (length-map f xs)

list_cached-more :
    (ds : List ApplicationDescriptor) (cursor limit : ℕ)
    → limit ≤ max_applications
    → length ds < 2 ^ 32
    → cursor + limit < length ds
    → list_cached (some ds) (at_cursor cursor limit)
      ≡ ok (page_of (take limit (drop cursor ds)) (some (cursor + limit)))
unfolding list_cached new_list
list_cached-more ds cursor limit allowed fits more =
    let size = length-take_le limit (drop cursor ds) (rw (length-drop cursor ds) (omega arith)) in
    let wide : (cursor + limit) - cursor ≡ limit = omega arith in
    let a = ltb-eq_false (length ds) cursor (omega arith) in
    let b = lt→ltb (cursor + limit) (2 ^ 64) (omega arith) in
    let c = ltb-eq_false (length ds) (cursor + limit) (omega arith) in
    let d = lt→ltb (cursor + limit) (length ds) more in
    let e = lt→ltb (cursor + limit) (2 ^ 32) (omega arith) in
    rw (a, b, c, d, e, wide, size, ltb-eq_false max_applications limit allowed) refl

list_cached-last :
    (ds : List ApplicationDescriptor) (cursor limit : ℕ)
    → limit ≤ max_applications
    → length ds < 2 ^ 32
    → cursor ≤ length ds
    → length ds ≤ cursor + limit
    → list_cached (some ds) (at_cursor cursor limit) ≡ ok (page_of (drop cursor ds) none)
unfolding list_cached new_list
list_cached-last ds cursor limit allowed fits inside last =
    let size = length-drop cursor ds in
    let a = ltb-eq_false (length ds) cursor inside in
    let b = lt→ltb (cursor + limit) (2 ^ 64) (omega arith) in
    let end : min (cursor + limit) (length ds) ≡ length ds = ground arith in
    let c = ltb-eq_false (length ds) (length ds) (omega arith) in
    let d = take_short (length ds - cursor) (drop cursor ds) (omega arith) in
    let e = ltb-eq_false max_applications (length (drop cursor ds)) (omega arith) in
    rw (a, b, end, c, d, e) refl

abbrev pub onto_page :
    List ApplicationDescriptor
    → Option ℕ
    → (ℕ → Option (List ApplicationDescriptor))
    → Option (List ApplicationDescriptor)
onto_page shown none rest = some shown
onto_page shown (some next) rest = and_then (rest next) (λ more. some (shown ++ more))

abbrev pub after_page :
    Result Failure ApplicationPage
    → (ℕ → Option (List ApplicationDescriptor))
    → Option (List ApplicationDescriptor)
after_page (err error) rest = none
after_page (ok shown) rest = onto_page shown.applications.items shown.next_cursor rest

-- A client that asks for page after page, `fuel` of them at most, as long as a page names the next
-- one. `installed` is what the file system holds at each of its requests.
unfoldable pub follow :
    (limit : ℕ) (policy : LaunchPolicy) (installed : ℕ → Result Failure (List CatalogEntry))
    (fuel cursor : ℕ)
    → SessionCatalog
    → Option (List ApplicationDescriptor)
follow limit policy installed zero cursor catalog = none
follow limit policy installed (suc fuel) cursor catalog =
    let listed = list catalog (at_cursor cursor limit) policy (installed fuel) in
    after_page listed.0 (λ next. follow limit policy installed fuel next listed.1)

take-drop :
    (n : ℕ) (ds : List ApplicationDescriptor) (m : ℕ)
    → take m (drop n ds) ++ drop (n + m) ds ≡ drop n ds
take-drop zero ds m = rw add.zero (take-append-drop m ds)
take-drop (suc n) [] zero = rw add.suc refl
take-drop (suc n) [] (suc m) = rw add.suc refl
take-drop (suc n) (d ∷ ds) m = rw add.suc (take-drop n ds m)

list-later :
    (ds : List ApplicationDescriptor) (request : ApplicationListRequest) (policy : LaunchPolicy)
    (installed : Result Failure (List CatalogEntry))
    → 0 < request.cursor
    → list (record { cached = some ds }) request policy installed
      ≡ (list_cached (some ds) request, record { cached = some ds })
unfolding list refresh
list-later ds request policy installed later =
    let a : (request.cursor == 0) ≡ false = ground arith in rw a refl

list-first :
    (catalog : SessionCatalog) (limit : ℕ) (policy : LaunchPolicy)
    (installed : Result Failure (List CatalogEntry)) (entries : List CatalogEntry)
    → discover policy installed ≡ ok entries
    → list catalog (at_cursor 0 limit) policy installed ≡ (
      list_cached (some (map descriptor_of entries)) (at_cursor 0 limit),
      record { cached = some (map descriptor_of entries) },
    )
unfolding list refresh
list-first catalog limit policy installed entries found = rw found refl

module _ (limit : ℕ) (policy : LaunchPolicy) (installed : ℕ → Result Failure (List CatalogEntry))
    (some_limit : 0 < limit) (allowed : limit ≤ max_applications) where
  abbrev rest_of : List ApplicationDescriptor → ℕ → ℕ → Option (List ApplicationDescriptor)
  rest_of ds fuel next = follow limit policy installed fuel next (record { cached = some ds })

  -- What is shown from a cursor on, once the catalog is there.
  onto_rest :
      (ds : List ApplicationDescriptor) (fuel cursor : ℕ)
      → length ds < 2 ^ 32
      → cursor ≤ length ds
      → length ds < cursor + suc fuel
      → ((next : ℕ)
          → 0 < next
          → next ≤ length ds
          → length ds < next + fuel
          → rest_of ds fuel next ≡ some (drop next ds))
      → after_page (list_cached (some ds) (at_cursor cursor limit)) (rest_of ds fuel)
        ≡ some (drop cursor ds)
  onto_rest ds fuel cursor fits inside enough later =
      elim (Bool-cases (ltb (cursor + limit) (length ds))) [
        | inl more ↦
            let bound = ltb→lt (cursor + limit) (length ds) more in
            ap (λ a. after_page a (rest_of ds fuel))
              (list_cached-more ds cursor limit allowed fits bound)
            ∙ ap (λ o. and_then o (λ more. some (take limit (drop cursor ds) ++ more)))
                (later (cursor + limit) (omega arith) (omega arith) (omega arith))
            ∙ ap some (take-drop cursor ds limit)
        | inr last ↦
            ap (λ a. after_page a (rest_of ds fuel))
              (list_cached-last ds cursor limit allowed fits inside (ground (arith, last)))
      ]

  follow-cached :
      (ds : List ApplicationDescriptor) (fuel cursor : ℕ)
      → length ds < 2 ^ 32
      → 0 < cursor
      → cursor ≤ length ds
      → length ds < cursor + fuel
      → rest_of ds fuel cursor ≡ some (drop cursor ds)
  unfolding follow
  follow-cached ds zero cursor fits started inside enough = absurd (omega arith)
  follow-cached ds (suc fuel) cursor fits started inside enough =
      ap (λ r. after_page r.0 (λ next. follow limit policy installed fuel next r.1))
        (list-later ds (at_cursor cursor limit) policy (installed fuel) started)
      ∙ onto_rest ds fuel cursor fits inside enough
          (λ next a b c. follow-cached ds fuel next fits a b c)

  -- From cursor 0 on, page after page, a client is shown every application that was there and
  -- permitted at its first request, in order and each once, whatever the file system holds later.
  -- The limit is a valid one, the catalog is below 2^32 entries, and the client asks for one page
  -- more than there are entries at most.
  pub follow_complete :
      (catalog : SessionCatalog) (fuel : ℕ) (entries : List CatalogEntry)
      → discover policy (installed fuel) ≡ ok entries
      → length entries < 2 ^ 32
      → length entries ≤ fuel
      → follow limit policy installed (suc fuel) 0 catalog ≡ some (map descriptor_of entries)
  unfolding follow
  follow_complete catalog fuel entries found fits enough =
      let ds = map descriptor_of entries in
      let size = length-map descriptor_of entries in
      ap (λ r. after_page r.0 (λ next. follow limit policy installed fuel next r.1))
        (list-first catalog limit policy (installed fuel) entries found)
      ∙ onto_rest ds fuel 0 (omega arith) (omega arith) (omega arith)
          (λ next a b c. follow-cached ds fuel next (omega arith) a b c)
