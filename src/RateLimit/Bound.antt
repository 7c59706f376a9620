-- ===== src/RateLimit/Bound.antt =====
-- How many requests a key can count.
use revy.Common.{
  ℕ, zero, suc, ◌+◌, ◌*◌, ◌/◌, ◌≤◌, ◌<◌, ◌≡◌, ◌≢◌, refl, sym, ap, ◌∙◌, subst, String, Bool, true,
  false, not, ◌&&◌, List, [], ◌∷◌, ◌==◌, leb, arith, keep, any_of, any_of-find, find, find-none,
  count_if, All, All-map, All-keep, All-keep_of, All-append_one, Has-All, Bool-cases, Option-cases,
  inl, inr, eq_iff,
}
use revy.Common.Table
use revy.Common.Table.Counts.{count_if-keep_one}
use revy.Common.Errors.{Result, ok}
use revy.RateLimit.{RateLimiter, rate_limit_api, Entry, has_key, is_same, is_past, zadd, call}

count_if-none :
    {A : Type 0} (p : A → Bool) (xs : List A) → All (λ x. p x ≡ false) xs → count_if p xs ≡ 0
count_if-none p [] h = refl
count_if-none p (x ∷ xs) h = ground (arith, count_if-none p xs h.1)

-- Rows with distinct numbers in a range are no more than the range is long.
count_if-range :
    {A : Type 0} (p : A → Bool) (number : A → ℕ) (start n : ℕ) (xs : List A)
    → Table.IsPairwise (λ x y. p x ≡ true → p y ≡ true → number x ≢ number y) xs
    → All (λ x. p x ≡ true → (start ≤ number x) × (number x < start + n)) xs
    → count_if p xs ≤ n
count_if-range p number start zero xs apart within =
    subst (λ c. c ≤ 0)
      (sym (
        count_if-none p xs (
          All-map (λ x. p x ≡ true → (start ≤ number x) × (number x < start + 0)) _ xs
            (λ x h. elim (Bool-cases (p x)) [ inl t ↦ absurd (omega (arith, h t)) | inr f ↦ f ])
            within)))
      (omega arith)
count_if-range {A = A} p number start (suc n) xs apart within =
    let last : A → Bool = λ x. not (number x == start + n) in
    let rest =
      count_if-range p number start n (keep last xs) (Table.keep-IsPairwise _ last xs apart) (
        All-keep _ last xs (λ x m before counted.
          let here =
            Has-All (λ x. p x ≡ true → (start ≤ number x) × (number x < start + suc n)) x xs within
              m counted in
          ground arith)) in
    let one = count_if-keep_one p last xs (
      Table.map-IsPairwise (λ x y. p x ≡ true → p y ≡ true → number x ≢ number y) _ xs
        (λ x y differ dropped counted other.
          let no : number x ≢ number y = differ counted other in ground arith)
        apart) in
    omega arith

has_key_parts :
    (scope identifier : String) (window : ℕ) (e : Entry)
    → has_key scope identifier window e ≡ true
    → (e.scope ≡ scope) × (e.identifier ≡ identifier) × (e.window ≡ window)
has_key_parts scope identifier window e h = (
  (eq_iff e.scope scope).0 (ground arith),
  (eq_iff e.identifier identifier).0 (ground arith),
  ground arith,
)

has_key_of :
    (scope identifier : String) (window : ℕ) (e : Entry)
    → e.scope ≡ scope
    → e.identifier ≡ identifier
    → e.window ≡ window
    → has_key scope identifier window e ≡ true
has_key_of scope identifier window e a b c =
    rw ((eq_iff e.scope scope).1 a, (eq_iff e.identifier identifier).1 b) (ground arith)

-- Entries of different keys, or different members of one key.
abbrev pub Differ : Entry → Entry → Type 0
Differ x y =
    x.scope ≡ y.scope → x.identifier ≡ y.identifier → x.window ≡ y.window → x.member ≢ y.member

-- What every key holds: seconds of its own window of a minute, each once.
pub record IsStore (store : List Entry) : Type 0 where
  pub in_window : All (λ e. e.member / 60 ≡ e.window) store
  pub once : Table.IsPairwise Differ store

count_if-IsStore :
    (scope identifier : String) (window : ℕ) (store : List Entry)
    → IsStore store
    → count_if (has_key scope identifier window) store ≤ 60
count_if-IsStore scope identifier window store s =
    count_if-range (has_key scope identifier window) Entry.member (60 * window) 60 store
      (Table.map-IsPairwise Differ _ store
        (λ x y differ a b.
          let (s₁, i₁, w₁) = has_key_parts scope identifier window x a in
          let (s₂, i₂, w₂) = has_key_parts scope identifier window y b in
          differ (s₁ ∙ sym s₂) (i₁ ∙ sym i₂) (w₁ ∙ sym w₂))
        s.once)
      (All-map (λ e. e.member / 60 ≡ e.window) _ store
        (λ e h t. let here : e.window ≡ window = ground arith in omega arith) s.in_window)

zadd-IsStore :
    (entry : Entry) (store : List Entry)
    → entry.member / 60 ≡ entry.window
    → IsStore store
    → IsStore (zadd entry store)
unfolding zadd
zadd-IsStore entry store here s = elim (Option-cases (find (is_same entry) store)) [
  | inl new ↦
      let absent : any_of (is_same entry) store ≡ false =
        ground (arith, any_of-find (is_same entry) store) in
      rw absent (record {
        in_window = All-append_one (λ e. e.member / 60 ≡ e.window) store entry s.in_window here;
        once = Table.append_one-IsPairwise Differ entry store s.once (
            All-map (λ e. is_same entry e ≡ false) (λ e. Differ e entry) store
              (λ e no a b c same.
                let yes = has_key_of entry.scope entry.identifier entry.window e a b c in
                absurd (ground arith))
              (find-none (is_same entry) store new));
      })
  | inr (e, old) ↦
      let present : any_of (is_same entry) store ≡ true =
        ground (arith, any_of-find (is_same entry) store) in
      rw present s
]

-- A limiter with a window of a minute and a limit of 60 or more lets every request through, however
-- many there are: a key counts the seconds that have had a request and not the requests, and there
-- are 60 of them.
pub call-never_limits :
    (limiter : RateLimiter) (identifier : String) (now : ℕ) (store : List Entry)
    → limiter.window_seconds ≡ 60
    → 60 ≤ limiter.limit
    → IsStore store
    → ((call limiter identifier now store).1 ≡ ok tt)
      × IsStore (call limiter identifier now store).0
unfolding call
call-never_limits limiter identifier now store minute high s =
    let window = now / limiter.window_seconds in
    let stays : Entry → Bool =
      λ e. not (has_key limiter.scope identifier window e && is_past now limiter e) in
    let kept : IsStore (keep stays store) = record {
      in_window = All-keep_of (λ e. e.member / 60 ≡ e.window) stays store s.in_window;
      once = Table.keep-IsPairwise Differ stays store s.once;
    } in
    let entry : Entry = record {
      scope = limiter.scope;
      identifier = identifier;
      window = window;
      member = now;
    } in
    let added = zadd-IsStore entry (keep stays store) (ap (λ w. now / w) (sym minute)) kept in
    let few =
      count_if-IsStore limiter.scope identifier window (zadd entry (keep stays store)) added in
    let allowed : leb
          (count_if (has_key limiter.scope identifier window) (zadd entry (keep stays store)))
          limiter.limit
        ≡ true =
      ground arith in
    (rw allowed refl, added)

-- The answers to a sequence of requests, each with its identifier and second.
pub answers : RateLimiter → List (String × ℕ) → List Entry → List (Result (Unit {0}))
answers limiter [] store = []
answers limiter (request ∷ requests) store =
    let (store', answer) = call limiter request.0 request.1 store in
    answer ∷ answers limiter requests store'

answers_ok :
    (limiter : RateLimiter) (requests : List (String × ℕ)) (store : List Entry)
    → limiter.window_seconds ≡ 60
    → 60 ≤ limiter.limit
    → IsStore store
    → All (λ answer. answer ≡ ok tt) (answers limiter requests store)
unfolding answers
answers_ok limiter [] store minute high s = tt
answers_ok limiter (request ∷ requests) store minute high s =
    let (through, kept) = call-never_limits limiter request.0 request.1 store minute high s in
    (
      through,
      answers_ok limiter requests (call limiter request.0 request.1 store).0 minute high kept,
    )

-- The limiter of the API, with its limit of 120 requests in 60 seconds, answers no sequence of
-- requests with an error, from an empty store: a key counts the seconds of a minute in which a
-- request came, and not the requests.
pub rate_limit_api-never_limits :
    (requests : List (String × ℕ))
    → All (λ answer. answer ≡ ok tt) (answers rate_limit_api requests [])
rate_limit_api-never_limits requests =
    answers_ok rate_limit_api requests [] refl (omega arith) (record { in_window = tt; once = tt })
