-- ===== src/Item/Names.antt =====
-- The stored names of the item states: what is written is what is read.
use gdom.Base.{◌≡◌, refl, ◌↔◌, String, ok, ap, ◌∙◌, parse-name}
use gdom.Item.State.{ItemState, discovered, as_str, from_str, state_arms, invalid_item_state}

from_str-as_str : (s : ItemState) → from_str (as_str s) ≡ ok s
unfolding from_str as_str
from_str-as_str discovered = refl
from_str-as_str _ = refl

as_str_of_from_str : (t : String) (s : ItemState) → from_str t ≡ ok s → t ≡ as_str s
unfolding from_str as_str
as_str_of_from_str t s h = parse-name as_str t state_arms invalid_item_state s refl h

-- A text is read as an item state exactly when it is the name that is written for that state.
pub state_from_str_iff : (t : String) (s : ItemState) → (from_str t ≡ ok s) ↔ (t ≡ as_str s)
state_from_str_iff t s = (as_str_of_from_str t s, λ e. ap from_str e ∙ from_str-as_str s)
