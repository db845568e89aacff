-- ===== src/Launch/Catalog.antt =====
-- The catalog of a session and its pages, `SessionCatalog`, `discover` and `Failure` of
-- crates/agent-seat-x11/src/launch.rs, with `LaunchPolicy` of crates/agent-seat-x11/src/config.rs.
-- What `discover_all` finds on the file system is an argument.
pub mod Pages
use agent_seat_proto.Prelude.{
  ℕ, ◌+◌, ◌-◌, ◌^◌, Bool, true, false, not, ◌&&◌, ◌||◌, ltb, ◌==◌, if◌then◌else◌, Option, none,
  some, List, [], ◌∷◌, map, length, take, drop, is_empty, any, Result, ok, err, ◌>>=◌, ok_or,
  map_err, String,
}
use agent_seat_proto.Prelude.Text.{Str, same}
use agent_seat_proto.Proto.Bounded.{BoundedList, new_list}
use agent_seat_proto.Proto.Limits.{max_applications}
use agent_seat_proto.Proto.Hello.{ErrorCode, unavailable, refused, invalid_argument, internal}
use agent_seat_proto.Proto.Failure.{Retry, never}
use agent_seat_proto.Proto.Requests.{ApplicationId, ApplicationListRequest}
use agent_seat_proto.Proto.Page.{ApplicationDescriptor, ApplicationPage}

pub record Failure : Type 0 where
  pub code : ErrorCode
  pub retry : Retry
  pub message : String

-- `Failure::refused`, `Failure::unavailable` and so on.
abbrev pub failure : ErrorCode → String → Failure
failure code message = record { code = code; retry = never; message = message }

pub data LaunchMode : Type 0 where
  deny allow_listed allow_installed : LaunchMode

pub record LaunchPolicy : Type 0 where
  pub mode : LaunchMode
  pub allow : BoundedList ApplicationId max_applications
  pub denied : BoundedList ApplicationId max_applications
  pub allow_user_entries : Bool

-- `list.contains(application)`
abbrev pub lists : BoundedList ApplicationId max_applications → ApplicationId → Bool
lists list application = any (λ id. same id.text application.text) list.items

unfoldable pub allows_any : LaunchPolicy → Bool
allows_any policy = elim policy.mode [
  | deny ↦ false
  | allow_listed ↦ not (is_empty policy.allow.items)
  | allow_installed ↦ true
]

unfoldable pub permits : LaunchPolicy → ApplicationId → Bool → Bool
permits policy application user_entry =
    if user_entry && not policy.allow_user_entries || lists policy.denied application
    then false
    else elim policy.mode [
      | deny ↦ false
      | allow_listed ↦ lists policy.allow application
      | allow_installed ↦ true
    ]

pub record CatalogEntry : Type 0 where
  pub descriptor : ApplicationDescriptor
  pub program : List ℕ
  pub arguments : List Str
  pub working_directory : Option (List ℕ)

-- `iter.filter(p)`
abbrev pub filter {ℓ} : {A : Type ℓ} → (A → Bool) → List A → List A
filter p [] = []
filter p (x ∷ xs) = let rest = filter p xs in if p x then x ∷ rest else rest

abbrev pub is_permitted : LaunchPolicy → CatalogEntry → Bool
is_permitted policy entry = permits policy entry.descriptor.id entry.descriptor.user_entry

unfoldable pub discover :
    LaunchPolicy → Result Failure (List CatalogEntry) → Result Failure (List CatalogEntry)
discover policy installed =
    if not (allows_any policy)
    then ok []
    else installed >>= λ entries. ok (filter (is_permitted policy) entries)

pub record SessionCatalog : Type 0 where
  pub cached : Option (List ApplicationDescriptor)

-- `SessionCatalog::new`
abbrev pub new : SessionCatalog
new = record { cached = none }

-- `usize::saturating_add`
abbrev pub saturating_add : ℕ → ℕ → ℕ
saturating_add a b = if ltb (a + b) (2 ^ 64) then a + b else 2 ^ 64 - 1

abbrev pub min : ℕ → ℕ → ℕ
min a b = if ltb b a then b else a

abbrev pub next_cursor : ℕ → ℕ → Result Failure (Option ℕ)
next_cursor end count =
    if not (ltb end count)
    then ok none
    else if ltb end (2 ^ 32)
    then ok (some end)
    else err (failure internal "application cursor space is exhausted")

abbrev pub page : List ApplicationDescriptor → ℕ → ℕ → Result Failure ApplicationPage
page catalog start end = next_cursor end (length catalog) >>= λ next.
    map_err (λ _. failure internal "application page exceeded its public bound")
      (new_list max_applications (take (end - start) (drop start catalog)))
    >>= λ applications. ok (record { applications = applications; next_cursor = next })

-- The page that a catalog gives; a `u32` always fits a `usize`.
unfoldable pub list_cached :
    Option (List ApplicationDescriptor) → ApplicationListRequest → Result Failure ApplicationPage
list_cached cached request =
    ok_or cached (failure invalid_argument "application cursor has no session catalog")
    >>= λ catalog.
        if ltb (length catalog) request.cursor
        then err (failure invalid_argument "application cursor is outside the catalog")
        else page catalog request.cursor
            (min (saturating_add request.cursor request.limit) (length catalog))

abbrev pub descriptor_of : CatalogEntry → ApplicationDescriptor
descriptor_of entry = entry.descriptor

-- The discovery at cursor 0: the error that ends `list`, or the catalog that is cached.
unfoldable pub refresh :
    SessionCatalog
    → ApplicationListRequest
    → LaunchPolicy
    → Result Failure (List CatalogEntry)
    → Result Failure SessionCatalog
refresh catalog request policy installed =
    if request.cursor == 0
    then discover policy installed
      >>= (λ entries. ok (record { cached = some (map descriptor_of entries) }))
    else ok catalog

-- What follows the discovery, with the catalog after it.
abbrev pub listed :
    SessionCatalog
    → ApplicationListRequest
    → Result Failure SessionCatalog
    → Result Failure ApplicationPage × SessionCatalog
listed catalog request (ok refreshed) = (list_cached refreshed.cached request, refreshed)
listed catalog request (err error) = (err error, catalog)

-- `SessionCatalog::list`, with the catalog after it.
unfoldable pub list :
    SessionCatalog
    → ApplicationListRequest
    → LaunchPolicy
    → Result Failure (List CatalogEntry)
    → Result Failure ApplicationPage × SessionCatalog
list catalog request policy installed =
    listed catalog request (refresh catalog request policy installed)
