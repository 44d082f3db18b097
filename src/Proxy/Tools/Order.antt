-- ===== src/Proxy/Tools/Order.antt =====
-- Lists in another order, and the sort of tools with different names.
use soma_benchmark.Base.{◌≡◌, ◌≢◌, refl, sym, ap, ◌∙◌, List, [], ◌∷◌, arith}
use soma_benchmark.Base.Text.{Text, text_at_most_total, text_at_most_trans, text_at_most_antisym}
use soma_benchmark.Proxy.Tools.{Tool, key, insert_tool, sort_tools}

-- The second list has the elements of the first in another order.
pub data Reordered {ℓ} {A : Type ℓ} : List A → List A → Type ℓ where
  same : (xs : List A) → Reordered xs xs
  skip : (x : A) {xs ys : List A} → Reordered xs ys → Reordered (x ∷ xs) (x ∷ ys)
  swap : (x y : A) (xs : List A) → Reordered (x ∷ y ∷ xs) (y ∷ x ∷ xs)
  after : {xs ys zs : List A} → Reordered xs ys → Reordered ys zs → Reordered xs zs

-- No tool of the list has the name.
abbrev pub Lacks : Text → List Tool → Type 0
Lacks k [] = Unit
Lacks k (t ∷ ts) = (k ≢ key t) × Lacks k ts

abbrev pub AreDistinct : List Tool → Type 0
AreDistinct [] = Unit
AreDistinct (t ∷ ts) = Lacks (key t) ts × AreDistinct ts

Lacks-Reordered : {ts us : List Tool} (k : Text) → Reordered ts us → Lacks k ts → Lacks k us
Lacks-Reordered k (same _) h = h
Lacks-Reordered k (skip _ r) h = (h.0, Lacks-Reordered k r h.1)
Lacks-Reordered k (swap _ _ _) h = (h.1.0, (h.0, h.1.1))
Lacks-Reordered k (after r q) h = Lacks-Reordered k q (Lacks-Reordered k r h)

pub AreDistinct-Reordered : {ts us : List Tool} → Reordered ts us → AreDistinct ts → AreDistinct us
AreDistinct-Reordered (same _) h = h
AreDistinct-Reordered (skip t r) h = (Lacks-Reordered (key t) r h.0, AreDistinct-Reordered r h.1)
AreDistinct-Reordered (swap t u ts) h = ((λ e. h.0.0 (sym e), h.1.0), (h.0.1, h.1.1))
AreDistinct-Reordered (after r q) h = AreDistinct-Reordered q (AreDistinct-Reordered r h)

insert_tool-swap :
    (t u : Tool) (ts : List Tool)
    → key t ≢ key u
    → insert_tool t (insert_tool u ts) ≡ insert_tool u (insert_tool t ts)
unfolding insert_tool
insert_tool-swap t u [] n = ground (
  arith,
  text_at_most_total (key t) (key u),
  text_at_most_total (key u) (key t),
  text_at_most_antisym (key t) (key u),
)
insert_tool-swap t u (v ∷ ts) n = ground (
  arith,
  insert_tool-swap t u ts n,
  text_at_most_total (key t) (key u),
  text_at_most_total (key u) (key t),
  text_at_most_antisym (key t) (key u),
  text_at_most_trans (key t) (key u) (key v),
  text_at_most_trans (key u) (key t) (key v),
  text_at_most_total (key t) (key v),
  text_at_most_total (key u) (key v),
  text_at_most_trans (key v) (key t) (key u),
  text_at_most_trans (key v) (key u) (key t),
)

pub sort_tools-Reordered :
    {ts us : List Tool} → Reordered ts us → AreDistinct ts → sort_tools ts ≡ sort_tools us
unfolding sort_tools
sort_tools-Reordered (same _) h = refl
sort_tools-Reordered (skip t r) h = ap (insert_tool t) (sort_tools-Reordered r h.1)
sort_tools-Reordered (swap t u ts) h = insert_tool-swap t u (sort_tools ts) h.0.0
sort_tools-Reordered (after r q) h =
    sort_tools-Reordered r h ∙ sort_tools-Reordered q (AreDistinct-Reordered r h)
