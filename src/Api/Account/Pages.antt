-- ===== src/Api/Account/Pages.antt =====
-- The pages of `listAccounts` one after the other, and the page whose offset is no int32.
use go2bank.Prelude.{
  ℕ, zero, suc, ◌+◌, ◌*◌, ◌≤◌, ◌<◌, String, ◌≡◌, refl, sym, ap, ◌∙◌, ◌⊎◌, inl, inr, true, false,
  Option, some, List, [], ◌∷◌, ◌++◌, arith, take, drop, &&-eq-true,
}
use go2bank.Prelude.Int.{ℤ, pos, negsuc, ltb_ℤ, leb_ℤ}
use go2bank.Api.Gin.{accounts}
use go2bank.Api.Transfer.Safety.{params}
use go2bank.Api.User.Profile.{shown}
use go2bank.Token.{Payload}
use go2bank.Db.Error.{pg_error}
use go2bank.Api.Account.{ListAccountsRequest, binds_list, offset_of, list_accounts_handler}
use go2bank.Api.Account.Paging.{
  ShowsPage, offset_of_wraps, offset_of_exact, page_of, page_request, list_accounts_handler-paged,
}
use go2bank.Api.Gin.{returned, json, Exit, World}
use go2bank.Api.Reading.{Refused}
use go2bank.Db.Account.Rows.{owned_by}
use go2bank.Db.Model.{Tables, idle, Account}
use go2bank.Db.Page.{page, order_by}
use go2bank.Db.Query.{ok, Result, err}

abbrev sorted : String → Tables → List Account
sorted owner t = order_by (λ row. row.id) (owned_by owner t.accounts)

abbrev pub rows_of : Result (List Account) → List Account
rows_of (ok rows) = rows
rows_of (err e) = []

-- The rows of pages 1 to k.
unfoldable pub first_pages : String → ℕ → Tables → ℕ → List Account
first_pages owner size t zero = []
first_pages owner size t (suc k) =
    first_pages owner size t k ++ rows_of (page_of owner (page_request k size) t)

take_nil : {A : Type 0} (n : ℕ) → take {A = A} n [] ≡ []
take_nil zero = refl
take_nil (suc n) = refl

take_more : {A : Type 0} (a b : ℕ) (xs : List A) → take a xs ++ take b (drop a xs) ≡ take (a + b) xs
take_more zero b xs = let e : 0 + b ≡ b = omega arith in rw e refl
take_more (suc a) b [] = let e : suc a + b ≡ suc (a + b) = omega arith in rw (e, take_nil b) refl
take_more (suc a) b (x ∷ xs) =
    let e : suc a + b ≡ suc (a + b) = omega arith in rw (e, take_more a b xs) refl

not_negative : (n : ℕ) → ltb_ℤ (pos n) (pos 0) ≡ false
unfolding ltb_ℤ
not_negative n = ground arith

page_of_exact :
    (owner : String) (n size : ℕ) (t : Tables)
    → n + 1 < 2147483648
    → n * size < 2147483648
    → page_of owner (page_request n size) t ≡ ok (take size (drop (n * size) (sorted owner t)))
unfolding page
page_of_exact owner n size t h k =
    rw (offset_of_exact n size h k, not_negative size, not_negative (n * size)) refl

-- The first k pages of one size hold the first k * size accounts of the owner, in the order of
-- their ids, as long as that number and k are below 2 ^ 31.
pub first_pages_lem :
    (owner : String) (size : ℕ) (t : Tables) (k : ℕ)
    → k < 2147483648
    → k * size < 2147483648
    → first_pages owner size t k
      ≡ take (k * size) (order_by (λ row. row.id) (owned_by owner t.accounts))
unfolding first_pages
first_pages_lem owner size t zero h l = let e : 0 * size ≡ 0 = omega arith in rw e refl
first_pages_lem owner size t (suc k) h l =
    let e : suc k * size ≡ k * size + size = omega arith in
    let small : k * size < 2147483648 = omega (arith, e) in
    rw
      (
        first_pages_lem owner size t k (omega arith) small,
        page_of_exact owner k size t (omega arith) small,
        e,
      )
      (take_more (k * size) size (sorted owner t))

page_of_wraps :
    (owner : String) (n size : ℕ) (t : Tables)
    → n + 1 < 2147483648
    → 2147483648 ≤ n * size
    → n * size < 4294967296
    → page_of owner (page_request n size) t ≡ err (pg_error "2201X")
unfolding page
page_of_wraps owner n size t h k l = rw (not_negative size, offset_of_wraps n size h k l) refl

never_shown :
    {S : Type 0} (n size : ℕ) (w : World S) (o : Exit Unit × World S)
    → n + 1 < 2147483648
    → 2147483648 ≤ n * size
    → n * size < 4294967296
    → ShowsPage (some (page_request n size)) w o
    → ⊥
never_shown n size w o h k l shown =
    let asked : page_request n size ≡ shown.req = cc (shown.asked) in
    let e = ap (λ req. page_of shown.auth.username req w.db.tables) asked in
    cc (e ∙ shown.is_page, page_of_wraps shown.auth.username n size w.db.tables h k l)

page_number : (p : ℤ) → leb_ℤ (pos 1) p ≡ true → (n : ℕ) × (p ≡ pos (n + 1))
unfolding leb_ℤ
page_number (pos zero) h = absurd (ground arith)
page_number (pos (suc n)) h = let e : suc n ≡ n + 1 = omega arith in (n, ap pos e)
page_number (negsuc n) h = absurd (ground arith)

page_length :
    (q : ℤ)
    → leb_ℤ (pos 5) q ≡ true
    → leb_ℤ q (pos 10) ≡ true
    → (size : ℕ) × (q ≡ pos size) × (5 ≤ size) × (size ≤ 10)
unfolding leb_ℤ
page_length (pos size) h k = (size, refl, ground arith, ground arith)
page_length (negsuc n) h k = absurd (ground arith)

-- What the binding takes.
binds_list-request :
    (r : ListAccountsRequest)
    → binds_list r ≡ true
    → (n : ℕ) × (size : ℕ) × (r ≡ page_request n size) × (5 ≤ size) × (size ≤ 10)
binds_list-request r h =
    let (both, c) = &&-eq-true _ _ h in
    let (a, b) = &&-eq-true _ _ both in
    let (n, p) = page_number r.page_id a in
    let (size, q, least, most) = page_length r.page_size b c in
    (n, size, λ i. record { page_id = p i; page_size = q i }, least, most)

binds_list-page : (n size : ℕ) → 5 ≤ size → size ≤ 10 → binds_list (page_request n size) ≡ true
unfolding leb_ℤ
binds_list-page n size least most = ground arith

module _ {S : Type 0} where
  -- One answer 200 with accounts of the signed-in user: those of page n + 1, counted in pages of
  -- the size that was asked for, as long as these numbers are below 2 ^ 31.
  pub record ShowsRows (params : Option ListAccountsRequest) (w : World S) (o : Exit Unit × World S)
      : Type 0 where
    pub auth : Payload
    pub n : ℕ
    pub size : ℕ
    pub rows : List Account
    pub signed_in : w.payload ≡ some auth
    pub asked : params ≡ some (record { page_id = pos (n + 1); page_size = pos size })
    pub least : 5 ≤ size
    pub most : size ≤ 10
    pub is_page :
        n + 1 < 2147483648
        → n * size < 2147483648
        → rows
          ≡ take size
              (drop (n * size) (order_by (λ row. row.id) (owned_by auth.username w.db.accounts)))
    pub ended : o.0 ≡ returned
    pub tables : o.1.db.tables ≡ w.db.tables
    pub calls : o.1.calls ≡ w.calls ++ json 200 (accounts rows) ∷ []

  ShowsPage-ShowsRows :
      (params : Option ListAccountsRequest) (w : World S) (o : Exit Unit × World S)
      → ShowsPage params w o
      → ShowsRows params w o
  ShowsPage-ShowsRows params w o s =
      let (n, size, is_req, least, most) = binds_list-request s.req s.in_range in
      record {
        auth = s.auth;
        n = n;
        size = size;
        rows = s.rows;
        signed_in = s.signed_in;
        asked = s.asked ∙ ap some is_req;
        least = least;
        most = most;
        is_page = λ small fits. ap rows_of (
            sym s.is_page
            ∙ ap (λ r. page_of s.auth.username r w.db.tables) is_req
            ∙ page_of_exact s.auth.username n size w.db.tables small fits);
        ended = s.ended;
        tables = s.tables;
        calls = s.calls;
      }

  -- A request for a page of accounts is refused, or it asks for 5 to 10 accounts of a page from the
  -- first on, and is answered 200 with exactly the accounts of the signed-in user on that page, in
  -- the order of their ids, as long as the number of the page and its offset are below 2 ^ 31. No
  -- table changes.
  pub list_accounts_handler-safe :
      (params : Option ListAccountsRequest) (w : World S)
      → w.db.tx ≡ idle
      → let out = list_accounts_handler params w in Refused w out ⊎ ShowsRows params w out
  list_accounts_handler-safe params w i = elim (list_accounts_handler-paged params w i) [
    | inl refused ↦ inl refused
    | inr shown ↦ inr (ShowsPage-ShowsRows params w _ shown)
  ]

  -- A request for a page of 5 to 10 accounts whose offset is from 2 ^ 31 up to 2 ^ 32 passes the
  -- binding, the offset is negative in int32, and the request is refused: it is never answered with
  -- accounts.
  pub list_accounts_handler_wraps :
      (n size : ℕ) (w : World S)
      → n + 1 < 2147483648
      → 2147483648 ≤ n * size
      → n * size < 4294967296
      → 5 ≤ size
      → size ≤ 10
      → w.db.tx ≡ idle
      → (binds_list (page_request n size) ≡ true)
        × (ltb_ℤ (offset_of (page_request n size)) (pos 0) ≡ true)
        × Refused w (list_accounts_handler (some (page_request n size)) w)
  list_accounts_handler_wraps n size w h k l least most i = (
    binds_list-page n size least most,
    offset_of_wraps n size h k l,
    elim (list_accounts_handler-paged (some (page_request n size)) w i) [
      | inl refused ↦ refused
      | inr shown ↦ absurd (never_shown n size w _ h k l shown)
    ],
  )
