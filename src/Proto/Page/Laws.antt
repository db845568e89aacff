-- ===== src/Proto/Page/Laws.antt =====
-- The pages of applications of crates/agent-seat-proto/src/message.rs that are admitted.
use agent_seat_proto.Prelude.{ℕ, ◌≡◌, refl, ◌↔◌, arith, true, false, List, [], ◌∷◌, All, ok}
use agent_seat_proto.Prelude.Text.{as_bytes}
use agent_seat_proto.Proto.Order.{Ord, strictly_ordered}
use agent_seat_proto.Proto.Order.Laws.{Ascending, strictly_ordered_iff}
use agent_seat_proto.Proto.Desktop.{validate_each}
use agent_seat_proto.Proto.Desktop.Laws.{validate_each_iff}
use agent_seat_proto.Proto.Page.{
  ApplicationDescriptor, ApplicationPage, lex_less, str_less, validate_application, validate_page,
}

pub lex_less_irrefl : (xs : List ℕ) → lex_less xs xs ≡ false
unfolding lex_less
lex_less_irrefl [] = refl
lex_less_irrefl (x ∷ xs) = ground (arith, lex_less_irrefl xs)

pub lex_less_trans :
    (xs ys zs : List ℕ) → lex_less xs ys ≡ true → lex_less ys zs ≡ true → lex_less xs zs ≡ true
unfolding lex_less
lex_less_trans [] [] zs h k = absurd cc
lex_less_trans [] (y ∷ ys) [] h k = absurd cc
lex_less_trans [] (y ∷ ys) (z ∷ zs) h k = refl
lex_less_trans (x ∷ xs) [] zs h k = absurd cc
lex_less_trans (x ∷ xs) (y ∷ ys) [] h k = absurd cc
lex_less_trans (x ∷ xs) (y ∷ ys) (z ∷ zs) h k = ground (arith, lex_less_trans xs ys zs)

instance abbrev pub application_ord : Ord ApplicationDescriptor
application_ord = record {
  less = λ a b. str_less a.id.text b.id.text;
  less_irrefl = λ a. lex_less_irrefl (as_bytes a.id.text);
  less_trans =
      λ a b c. lex_less_trans (as_bytes a.id.text) (as_bytes b.id.text) (as_bytes c.id.text);
}

page_parts :
    (p : ApplicationPage)
    → (validate_page p ≡ ok tt) ↔ (
        (validate_each validate_application p.applications.items ≡ ok tt)
        × (strictly_ordered p.applications.items ≡ true))
unfolding validate_page strictly_ordered
page_parts p = (λ h. ground arith, λ h. ground arith)

-- A page is admitted exactly when its entries are valid and every identifier is below all later
-- ones in byte order.
pub validate_page_iff :
    (p : ApplicationPage)
    → (validate_page p ≡ ok tt) ↔ (
        All (λ a. validate_application a ≡ ok tt) p.applications.items
        × Ascending p.applications.items)
validate_page_iff p = (
  λ h.
      let (each, ordered) = (page_parts p).0 h in
      ((validate_each_iff validate_application _).0 each, (strictly_ordered_iff _).0 ordered),
  λ h.
      (page_parts p).1
        ((validate_each_iff validate_application _).1 h.0, (strictly_ordered_iff _).1 h.1),
)
