-- ===== src/Entra/Odata/Pages.antt =====
-- A client that follows the next links of a collection.
use mock_oidc.Prelude.{
  ℕ, suc, drop-drop, ◌++◌, ap, refl, zero, Option, err, List, Bool, none, sym, true, ◌≡◌,
  take-append-drop, ok-injective, All, arith, length, ◌∷◌, some, false, ok, take, ◌≤◌, Result, ◌∙◌,
  [], drop, >>=-eq-ok, ◌-◌,
}
use mock_oidc.Text.{Text, txt, ◌==◌}
use mock_oidc.Oauth2.Request.{Form, get}
use mock_oidc.Entra.Odata.{
  reject_unsupported_options, filter_items, Schemas, select_all, next_query, refused_here,
  apply_select, first_refused, unsupported_options, Page, render_collection, has_option,
}
use mock_oidc.Json.{Fields}
use mock_oidc.Entra.Types.{Config}
use mock_oidc.Entra.Odata.Query.{next_query-get, next_query-has}
use mock_oidc.Entra.Verify.{GraphError}

pub drop-all {ℓ} : {A : Type ℓ} (n : ℕ) (xs : List A) → length xs ≤ n → drop n xs ≡ []
drop-all zero [] h = refl
drop-all zero (x ∷ xs) h = absurd (omega arith)
drop-all (suc n) [] h = refl
drop-all (suc n) (x ∷ xs) h = drop-all n xs (omega arith)

pub append-nil {ℓ} : {A : Type ℓ} (xs : List A) → xs ++ [] ≡ xs
append-nil [] = refl
append-nil (x ∷ xs) = ap (λ ys. x ∷ ys) (append-nil xs)

-- The first part of a suffix, and what follows it.
pub page-append {ℓ} :
    {A : Type ℓ} (s e : ℕ) (xs : List A) → s ≤ e → take (e - s) (drop s xs) ++ drop e xs ≡ drop s xs
page-append s e xs h =
    ap (λ ys. take (e - s) (drop s xs) ++ ys)
      (ap (λ (n : ℕ). drop n xs) (omega arith) ∙ sym (drop-drop (e - s) s xs))
    ∙ take-append-drop (e - s) (drop s xs)

module _ (raw type_name : Text) where
  select_all-take :
      (n : ℕ) (es out : List Fields)
      → select_all raw type_name es ≡ ok out
      → select_all raw type_name (take n es) ≡ ok (take n out)
  unfolding select_all
  select_all-take zero es out h = refl
  select_all-take (suc n) [] out h = ap (λ x. ok (take (suc n) x)) (ok-injective h)
  select_all-take (suc n) (e ∷ es) out h =
      let (f, p, h') = >>=-eq-ok (apply_select e raw type_name) _ h in
      let (fs, q, h'') = >>=-eq-ok (select_all raw type_name es) _ h' in
      rw (p, select_all-take n es fs q) (ap (λ x. ok (take (suc n) x)) (ok-injective h''))

  select_all-drop :
      (n : ℕ) (es out : List Fields)
      → select_all raw type_name es ≡ ok out
      → select_all raw type_name (drop n es) ≡ ok (drop n out)
  unfolding select_all
  select_all-drop zero es out h = h
  select_all-drop (suc n) [] out h = ap (λ x. ok (drop (suc n) x)) (ok-injective h)
  select_all-drop (suc n) (e ∷ es) out h =
      let (f, p, h') = >>=-eq-ok (apply_select e raw type_name) _ h in
      let (fs, q, h'') = >>=-eq-ok (select_all raw type_name es) _ h' in
      select_all-drop n es fs q ∙ ap (λ x. ok (drop (suc n) x)) (ok-injective h'')

  pub select_all-length :
      (es out : List Fields) → select_all raw type_name es ≡ ok out → length out ≡ length es
  unfolding select_all
  select_all-length [] out h = ap (λ (x : List Fields). length x) (sym (ok-injective h))
  select_all-length (e ∷ es) out h =
      let (f, p, h') = >>=-eq-ok (apply_select e raw type_name) _ h in
      let (fs, q, h'') = >>=-eq-ok (select_all raw type_name es) _ h' in
      ap (λ (x : List Fields). length x) (sym (ok-injective h''))
      ∙ ap (λ (m : ℕ). suc m) (select_all-length es fs q)

  pub select_all-page :
      (s n : ℕ) (es out : List Fields)
      → select_all raw type_name es ≡ ok out
      → select_all raw type_name (take n (drop s es)) ≡ ok (take n (drop s out))
  select_all-page s n es out h =
      select_all-take n (drop s es) (drop s out) (select_all-drop s es out h)

-- The parameters but the skip token are the same.
pub record IsSame (q q' : Form) : Type 0 where
  pub values : (k : Text) → (txt "$skiptoken" == k) ≡ false → get k q' ≡ get k q
  pub names : (k : Text) → (txt "$skiptoken" == k) ≡ false → has_option k q' ≡ has_option k q

pub next_query-IsSame : (q q' : Form) (n : ℕ) → IsSame q q' → IsSame q (next_query q' n)
next_query-IsSame q q' n same = record {
  values = λ k h. next_query-get k q' n h ∙ same.values k h;
  names = λ k h. next_query-has k q' n h ∙ same.names k h;
}

first_refused-same :
    (q q' : Form) (opts : List Text)
    → IsSame q q'
    → All (λ o. (txt "$skiptoken" == o) ≡ false) opts
    → first_refused q' opts ≡ first_refused q opts
first_refused-same q q' [] same h = refl
first_refused-same q q' (o ∷ opts) same (p, h) =
    rw (same.names o p, first_refused-same q q' opts same h) refl

pub reject-same :
    (q q' : Form) (expandable : Bool)
    → IsSame q q'
    → reject_unsupported_options q' (refused_here true expandable)
      ≡ reject_unsupported_options q (refused_here true expandable)
unfolding reject_unsupported_options refused_here txt ◌==◌
reject-same q q' true same =
    first_refused-same q q' unsupported_options same (refl, (refl, (refl, (refl, (refl, tt)))))
reject-same q q' false same =
    first_refused-same q q' (unsupported_options ++ txt "$expand" ∷ []) same
      (refl, (refl, (refl, (refl, (refl, (refl, tt))))))

pub filter-same :
    (schemas : Schemas) (q q' : Form) (type_name : Text) (items : List Fields)
    → IsSame q q'
    → filter_items schemas q' type_name items ≡ filter_items schemas q type_name items
unfolding filter_items txt ◌==◌
filter-same schemas q q' type_name items same =
    rw (same.names (txt "$filter") refl, same.values (txt "$filter") refl) refl

-- The items that a client reads; none where it has made all its requests and there is another page.
abbrev pub Reading : Type 0
Reading = Option (Result GraphError (List Fields))

abbrev pub before : List Fields → Reading → Reading
before value none = none
before value (some (err e)) = some (err e)
before value (some (ok rest)) = some (ok (value ++ rest))

abbrev pub after_page : (Form → Reading) → List Fields → Option Form → Reading
after_page further value none = some (ok value)
after_page further value (some q) = before value (further q)

abbrev pub read_on : (Form → Reading) → Result GraphError Page → Reading
read_on further (err e) = some (err e)
read_on further (ok page) = after_page further page.value page.next

-- A client that makes at most `n` requests: it reads a page, and the pages that its next link leads to.
unfoldable pub follow : Schemas → Config → Text → Bool → List Fields → ℕ → Form → Reading
follow schemas c type_name expandable items zero q = none
follow schemas c type_name expandable items (suc n) q =
    read_on (λ q'. follow schemas c type_name expandable items n q')
      (render_collection schemas c q type_name items expandable)
