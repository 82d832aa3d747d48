-- ===== src/Vm/Stack/View.antt =====
-- The data and the return stack as lists, top first, and what each function of stack.c does to
-- them.
use vector_forth_kernel.Base.{
  ℕ, zero, suc, ◌+◌, ◌-◌, ◌≤◌, ◌<◌, ◌≡◌, ◌≢◌, refl, ap, ap₂, ◌∙◌, List, [], ◌∷◌, arith, length,
  get_or, set, length-set, get_or-set_self, get_or-set_ne, codes, ◌++◌, map, sym, lt→not-leb,
  le→leb, ne→not-==, ==_of_eq,
}
use native.Mathlib.Numerals.{towards_suc}
use vector_forth_kernel.Vm.State.{Vm, ok, put}
use vector_forth_kernel.Vm.Stack.{ds_push, ds_pop, ds_peek, ds_pick, rs_push, rs_pop, rs_peek}

-- The first `n` cells of an array, the last of them first.
abbrev pub view : List ℕ → ℕ → List ℕ
view cells zero = []
view cells (suc n) = get_or cells n 0 ∷ view cells n

pub length-view : (cells : List ℕ) (n : ℕ) → length (view cells n) ≡ n
length-view cells zero = refl
length-view cells (suc n) = ap suc (length-view cells n)

pub view-set_above : (cells : List ℕ) (n i v : ℕ) → n ≤ i → view (set cells i v) n ≡ view cells n
view-set_above cells zero i v h = refl
view-set_above cells (suc n) i v h =
    ap₂ ◌∷◌ (get_or-set_ne cells i n v 0 (λ e. omega arith))
      (view-set_above cells n i v (omega arith))

pub view-set_top :
    (cells : List ℕ) (n v : ℕ) → n < length cells → view (set cells n v) (suc n) ≡ v ∷ view cells n
view-set_top cells n v h =
    ap₂ ◌∷◌ (get_or-set_self cells n v 0 h) (view-set_above cells n n v (omega arith))

-- The element at position `i` from the top.
pub get_or-view :
    (cells : List ℕ) (n i : ℕ) → i < n → get_or (view cells n) i 0 ≡ get_or cells (n - 1 - i) 0
get_or-view cells zero i h = absurd (omega arith)
get_or-view cells (suc n) zero h = ap (λ k. get_or cells k 0) (omega arith)
get_or-view cells (suc n) (suc i) h =
    get_or-view cells n i (omega arith) ∙ ap (λ k. get_or cells k 0) (omega arith)

-- The array has its 256 cells, and the index is within it.
pub record IsStack (cells : List ℕ) (n : ℕ) : Type 0 where
  pub size : length cells ≡ 256
  pub within : n ≤ 256

pub IsStack-push :
    {cells : List ℕ} {n : ℕ} (v : ℕ)
    → IsStack cells n
    → n < 256
    → IsStack (set cells n v) (n + 1) × (view (set cells n v) (n + 1) ≡ v ∷ view cells n)
IsStack-push {cells} {n} v s room = (
  record { size = length-set cells n v ∙ s.size; within = omega arith },
  simp towards_suc (view-set_top cells n v (omega arith)),
)

pub view-cons :
    (cells : List ℕ) (n v : ℕ) (xs : List ℕ)
    → view cells n ≡ v ∷ xs
    → (n ≢ 0) × (get_or cells (n - 1) 0 ≡ v) × (view cells (n - 1) ≡ xs)
view-cons cells zero v xs h = absurd (cc)
view-cons cells (suc n) v xs h = ground arith

pub IsStack-pop : {cells : List ℕ} {n : ℕ} → IsStack cells n → IsStack cells (n - 1)
IsStack-pop s = record { size = s.size; within = omega arith }

-- The data stack is well formed and holds `xs`, top first.
pub record Data (m : Vm) (xs : List ℕ) : Type 0 where
  pub stack : IsStack m.ds m.dsp
  pub holds : view m.ds m.dsp ≡ xs

-- The same of the return stack.
pub record Returns (m : Vm) (xs : List ℕ) : Type 0 where
  pub stack : IsStack m.rs m.rsp_idx
  pub holds : view m.rs m.rsp_idx ≡ xs

-- The state with the data stack blanked: all that a word of the data stack leaves alone.
abbrev pub other_than_data : Vm → Vm
other_than_data m = record m { ds = []; dsp = 0 }

abbrev pub other_than_returns : Vm → Vm
other_than_returns m = record m { rs = []; rsp_idx = 0 }

pub length-Data : {m : Vm} {xs : List ℕ} → Data m xs → length xs ≡ m.dsp
length-Data {m} d = rw (← d.holds) (length-view m.ds m.dsp)

pub length-Returns : {m : Vm} {xs : List ℕ} → Returns m xs → length xs ≡ m.rsp_idx
length-Returns {m} d = rw (← d.holds) (length-view m.rs m.rsp_idx)

-- `ds_push` below the limit puts a cell on top.
pub ds_push-room :
    (v : ℕ) {m : Vm} {xs : List ℕ}
    → Data m xs
    → length xs < 256
    → (g : Vm) × (ds_push v m ≡ ok tt g) × Data g (v ∷ xs) × (other_than_data g ≡ other_than_data m)
unfolding ds_push
ds_push-room v {m} {xs} d room =
    let below : m.dsp < 256 = omega (arith, length-Data d) in
    let (s, e) = IsStack-push v d.stack below in
    rw (lt→not-leb 256 m.dsp below)
      (_, refl, record { stack = s; holds = e ∙ ap (λ t. v ∷ t) d.holds }, refl)

-- At the limit `ds_push` changes nothing but the screen.
pub ds_push-full :
    (v : ℕ) {m : Vm} {xs : List ℕ}
    → Data m xs
    → length xs ≡ 256
    → ds_push v m
      ≡ ok tt (record m { screen = m.screen ++ map put (codes " Data Stack Overflow!\n") })
unfolding ds_push
ds_push-full v {m} {xs} d full = rw (le→leb 256 m.dsp (omega (arith, length-Data d)))

-- `ds_pop` takes the top cell.
pub ds_pop-cons :
    (v : ℕ) {m : Vm} {xs : List ℕ}
    → Data m (v ∷ xs)
    → (g : Vm) × (ds_pop m ≡ ok v g) × Data g xs × (other_than_data g ≡ other_than_data m)
unfolding ds_pop
ds_pop-cons v {m} {xs} d =
    let (ne, e, rest) = view-cons m.ds m.dsp v xs d.holds in
    rw (ne→not-== m.dsp 0 ne) (
      record m { dsp = m.dsp - 1 },
      ap (λ t. ok t (record m { dsp = m.dsp - 1 })) e,
      record { stack = IsStack-pop d.stack; holds = rest },
      refl,
    )

pub ds_pop-nil :
    {m : Vm}
    → Data m []
    → ds_pop m ≡ ok 0 (record m { screen = m.screen ++ map put (codes " Stack Underflow!\n") })
unfolding ds_pop
ds_pop-nil {m} d = let e : m.dsp ≡ 0 = omega (arith, length-Data d) in rw (==_of_eq m.dsp 0 e)

pub ds_peek-cons : (v : ℕ) {m : Vm} {xs : List ℕ} → Data m (v ∷ xs) → ds_peek m ≡ ok v m
unfolding ds_peek
ds_peek-cons v {m} {xs} d =
    let (ne, e, rest) = view-cons m.ds m.dsp v xs d.holds in
    rw (ne→not-== m.dsp 0 ne) (ap (λ t. ok t m) e)

pub ds_pick-below :
    (n : ℕ) {m : Vm} {xs : List ℕ} → Data m xs → n < length xs → ds_pick n m ≡ ok (get_or xs n 0) m
unfolding ds_pick
ds_pick-below n {m} {xs} d h =
    let below : n < m.dsp = omega (arith, length-Data d) in
    rw (lt→not-leb m.dsp n below)
      (ap (λ t. ok t m) (sym (get_or-view m.ds m.dsp n below) ∙ ap (λ t. get_or t n 0) d.holds))

-- The same for the return stack.
pub rs_push-room :
    (v : ℕ) {m : Vm} {xs : List ℕ}
    → Returns m xs
    → length xs < 256
    → (g : Vm) × (rs_push v m ≡ ok tt g)
      × Returns g (v ∷ xs)
      × (other_than_returns g ≡ other_than_returns m)
unfolding rs_push
rs_push-room v {m} {xs} d room =
    let below : m.rsp_idx < 256 = omega (arith, length-Returns d) in
    let (s, e) = IsStack-push v d.stack below in
    rw (lt→not-leb 256 m.rsp_idx below)
      (_, refl, record { stack = s; holds = e ∙ ap (λ t. v ∷ t) d.holds }, refl)

pub rs_pop-cons :
    (v : ℕ) {m : Vm} {xs : List ℕ}
    → Returns m (v ∷ xs)
    → (g : Vm) × (rs_pop m ≡ ok v g) × Returns g xs × (other_than_returns g ≡ other_than_returns m)
unfolding rs_pop
rs_pop-cons v {m} {xs} d =
    let (ne, e, rest) = view-cons m.rs m.rsp_idx v xs d.holds in
    rw (ne→not-== m.rsp_idx 0 ne) (
      record m { rsp_idx = m.rsp_idx - 1 },
      ap (λ t. ok t (record m { rsp_idx = m.rsp_idx - 1 })) e,
      record { stack = IsStack-pop d.stack; holds = rest },
      refl,
    )

pub rs_peek-cons : (v : ℕ) {m : Vm} {xs : List ℕ} → Returns m (v ∷ xs) → rs_peek m ≡ ok v m
unfolding rs_peek
rs_peek-cons v {m} {xs} d =
    let (ne, e, rest) = view-cons m.rs m.rsp_idx v xs d.holds in
    rw (ne→not-== m.rsp_idx 0 ne) (ap (λ t. ok t m) e)
