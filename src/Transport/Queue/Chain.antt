-- ===== src/Transport/Queue/Chain.antt =====
-- The list that links represent: `next` leads from the head through the nodes back to it, `prev` leads
-- back, and no node is there twice.
use stm32wb_hci.Prelude.{
  ℕ, ◌≡◌, ◌≢◌, refl, sym, List, [], ◌∷◌, ◌++◌, ◌∙◌, ◌==◌, if◌then◌else◌, arith,
}
use stm32wb_hci.Prelude.Bytes.{All}
use stm32wb_hci.Transport.Queue.{Memory}

-- `next` and `prev` as two functions: links from `a` through the list to `z`.
abbrev pub Chain : (ℕ → ℕ) → (ℕ → ℕ) → ℕ → List ℕ → ℕ → Type 0
Chain next prev a [] z = (next a ≡ z) × (prev z ≡ a)
Chain next prev a (b ∷ bs) z = (next a ≡ b) × (prev b ≡ a) × Chain next prev b bs z

abbrev pub NotIn : ℕ → List ℕ → Type 0
NotIn a xs = All (λ x. x ≢ a) xs

abbrev pub Distinct : List ℕ → Type 0
Distinct [] = Unit
Distinct (x ∷ xs) = NotIn x xs × Distinct xs

pub record Represents (memory : Memory) (head : ℕ) (nodes : List ℕ) : Type 0 where
  pub links : Chain (λ x. (memory x).next) (λ x. (memory x).prev) head nodes head
  pub distinct : Distinct (head ∷ nodes)

pub All-map {κ} :
    {A : Type 0} {P Q : A → Type κ} (xs : List A) → ((x : A) → P x → Q x) → All P xs → All Q xs
All-map [] f h = tt
All-map (x ∷ xs) f h = (f x h.0, All-map xs f h.1)

pub All-append {κ} :
    {A : Type 0} (P : A → Type κ) (xs ys : List A) → All P (xs ++ ys) → All P xs × All P ys
All-append P [] ys h = (tt, h)
All-append P (x ∷ xs) ys h = let (l, r) = All-append P xs ys h.1 in ((h.0, l), r)

-- A chain does not depend on the other links.
pub Chain-agree :
    (next prev next' prev' : ℕ → ℕ) (a : ℕ) (bs : List ℕ) (z : ℕ)
    → All (λ x. next' x ≡ next x) (a ∷ bs)
    → All (λ x. prev' x ≡ prev x) bs
    → prev' z ≡ prev z
    → Chain next prev a bs z
    → Chain next' prev' a bs z
Chain-agree next prev next' prev' a [] z hn hp hz c = (cc, cc)
Chain-agree next prev next' prev' a (b ∷ bs) z hn hp hz c =
    (cc, cc, Chain-agree next prev next' prev' b bs z hn.1 hp.1 hz c.2)

pub Represents-frame :
    (memory memory' : Memory) (head : ℕ) (nodes : List ℕ)
    → All (λ x. memory' x ≡ memory x) (head ∷ nodes)
    → Represents memory head nodes
    → Represents memory' head nodes
Represents-frame memory memory' head nodes same r = record {
  links =
      Chain-agree (λ x. (memory x).next) (λ x. (memory x).prev) (λ x. (memory' x).next)
        (λ x. (memory' x).prev) head nodes head (All-map (head ∷ nodes) (λ x e. rw e) same)
        (All-map nodes (λ x e. rw e) same.1) (rw same.0) r.links;
  distinct = r.distinct;
}

module _ (next prev : ℕ → ℕ) where
  -- The node before one of the list, and the node behind it.
  pub prev-In :
      (Q : ℕ → Type 0) (a : ℕ) (xs : List ℕ) (node : ℕ) (ys : List ℕ) (z : ℕ)
      → Chain next prev a (xs ++ (node ∷ ys)) z
      → All Q (a ∷ xs)
      → Q (prev node)
  prev-In Q a [] node ys z c h = rw c.1 h.0
  prev-In Q a (x ∷ xs) node ys z c h = prev-In Q x xs node ys z c.2 h.1

  pub next-In :
      (Q : ℕ → Type 0) (a : ℕ) (xs : List ℕ) (node : ℕ) (ys : List ℕ) (z : ℕ)
      → Chain next prev a (xs ++ (node ∷ ys)) z
      → All Q ys
      → Q z
      → Q (next node)
  next-In Q a [] node [] z c h k = rw c.2.0 k
  next-In Q a [] node (y ∷ ys) z c h k = rw c.2.0 h.0
  next-In Q a (x ∷ xs) node ys z c h k = next-In Q x xs node ys z c.2 h k

abbrev pub updated : (ℕ → ℕ) → ℕ → ℕ → ℕ → ℕ
updated f a v x = if x == a then v else f x

updated-same : (f : ℕ → ℕ) (a b v : ℕ) → a ≡ b → updated f a v b ≡ v
updated-same f a b v e = ground arith

updated-ne : (f : ℕ → ℕ) (a b v : ℕ) → b ≢ a → updated f a v b ≡ f b
updated-ne f a b v ne = ground (arith, ne)

updated-other :
    (f : ℕ → ℕ) (a v : ℕ) (xs : List ℕ) → NotIn a xs → All (λ x. updated f a v x ≡ f x) xs
updated-other f a v xs h = All-map xs (λ x. updated-ne f a x v) h

updated-other_two :
    (f : ℕ → ℕ) (a v b w : ℕ) (xs : List ℕ)
    → NotIn a xs
    → NotIn b xs
    → All (λ x. updated (updated f b w) a v x ≡ f x) xs
updated-other_two f a v b w [] ha hb = tt
updated-other_two f a v b w (x ∷ xs) ha hb = (
  updated-ne (updated f b w) a x v ha.0 ∙ updated-ne f b x w hb.0,
  updated-other_two f a v b w xs ha.1 hb.1,
)

NotIn-eq : (a b : ℕ) (xs : List ℕ) → a ≡ b → NotIn b xs → NotIn a xs
NotIn-eq a b xs e h = All-map xs (λ x ne q. ne (q ∙ e)) h

-- Linking the neighbours of a node to each other takes it out of the chain.
pub Chain-unlink :
    (next prev : ℕ → ℕ) (a : ℕ) (xs : List ℕ) (node : ℕ) (ys : List ℕ) (z : ℕ)
    → Chain next prev a (xs ++ (node ∷ ys)) z
    → Distinct (xs ++ (node ∷ ys))
    → NotIn a (xs ++ (node ∷ ys))
    → NotIn z (xs ++ (node ∷ ys))
    → Chain
        (updated next (prev node) (next node))
        (updated prev (next node) (prev node))
        a
        (xs ++ ys)
        z
Chain-unlink next prev a [] node [] z c d ha hz = (
  updated-same next (prev node) a (next node) c.1 ∙ c.2.0,
  updated-same prev (next node) z (prev node) c.2.0 ∙ c.1,
)
Chain-unlink next prev a [] node (y ∷ ys) z c d ha hz =
    let behind : next node ≡ y = c.2.0 in
    let before : prev node ≡ a = c.1 in
    (
      updated-same next (prev node) a (next node) before ∙ behind,
      updated-same prev (next node) y (prev node) behind ∙ before,
      Chain-agree next prev (updated next (prev node) (next node))
          (updated prev (next node) (prev node)) y ys z
          (updated-other next (prev node) (next node) (y ∷ ys)
            (NotIn-eq (prev node) a (y ∷ ys) before ha.1))
          (updated-other prev (next node) (prev node) ys (NotIn-eq (next node) y ys behind d.1.0))
          (updated-ne prev (next node) z (prev node) (λ e. hz.1.0 (sym (e ∙ behind)))) c.2.2,
    )
Chain-unlink next prev a (x ∷ xs) node ys z c d ha hz =
    let inner = c.2 in
    let apart_a : prev node ≢ a =
      prev-In next prev (λ v. v ≢ a) x xs node ys z inner
        (All-append (λ v. v ≢ a) (x ∷ xs) (node ∷ ys) ha).0 in
    let apart_x : next node ≢ x =
      next-In next prev (λ v. v ≢ x) x xs node ys z inner
        (All-append (λ v. v ≢ x) xs (node ∷ ys) d.0).1.1 (λ e. hz.0 (sym e)) in
    (
      updated-ne next (prev node) a (next node) (λ e. apart_a (sym e)) ∙ c.0,
      updated-ne prev (next node) x (prev node) (λ e. apart_x (sym e)) ∙ c.1,
      Chain-unlink next prev x xs node ys z inner d.1 d.0 hz.1,
    )

-- Linking a node that is in no list behind the first address puts it at the front of the chain.
pub Chain-link :
    (next prev : ℕ → ℕ) (a : ℕ) (bs : List ℕ) (z node : ℕ)
    → Chain next prev a bs z
    → Distinct (z ∷ bs)
    → NotIn a bs
    → NotIn node (a ∷ bs)
    → z ≢ node
    → Chain
        (updated (updated next node (next a)) a node)
        (updated (updated prev node a) (next a) node)
        a
        (node ∷ bs)
        z
Chain-link next prev a [] z node c d ha hn hz =
    let first : next a ≡ z = c.0 in
    (
      updated-same (updated next node (next a)) a a node refl,
      updated-ne (updated prev node a) (next a) node node (λ e. hz (sym (e ∙ first)))
          ∙ updated-same prev node node a refl,
      (
        updated-ne (updated next node (next a)) a node node (λ e. hn.0 (sym e))
            ∙ updated-same next node node (next a) refl
            ∙ first,
        updated-same (updated prev node a) (next a) z node first,
      ),
    )
Chain-link next prev a (b ∷ bs) z node c d ha hn hz =
    let first : next a ≡ b = c.0 in
    (
      updated-same (updated next node (next a)) a a node refl,
      updated-ne (updated prev node a) (next a) node node (λ e. hn.1.0 (sym (e ∙ first)))
          ∙ updated-same prev node node a refl,
      (
        updated-ne (updated next node (next a)) a node node (λ e. hn.0 (sym e))
            ∙ updated-same next node node (next a) refl
            ∙ first,
        updated-same (updated prev node a) (next a) b node first,
        Chain-agree next prev (updated (updated next node (next a)) a node)
            (updated (updated prev node a) (next a) node) b bs z
            (updated-other_two next a node node (next a) (b ∷ bs) ha hn.1)
            (updated-other_two prev (next a) node node a bs (NotIn-eq (next a) b bs first d.1.0)
              hn.1.1)
            (updated-ne (updated prev node a) (next a) z node (λ e. d.0.0 (sym (e ∙ first)))
              ∙ updated-ne prev node z a hz)
            c.2,
      ),
    )
