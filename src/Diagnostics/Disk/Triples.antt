-- ===== src/Diagnostics/Disk/Triples.antt =====
-- What holds before and after a sequence of file operations, wherever it is refused.
use dobby_vpn.Common.{Bool, true, false, List, [], ◌∷◌, ◌≡◌, ◌≢◌, refl, arith}
use dobby_vpn.Failure.{Result, ok, err}
use dobby_vpn.Diagnostics.Disk.{Files, Disk, M, pure, next, ◌>>=◌, called, call}

-- After a result `Q` holds of it and the files, and after an error `E` of the files; and if `S`, there
-- is no error without refusals, which are `r` before.
abbrev pub Post :
    {A : Type 0}
    → Type 0
    → (A → Files → Type 0)
    → (Files → Type 0)
    → List Bool
    → Disk × Result A
    → Type 0
Post S Q E r (d, ok a) = Q a d.files × (r ≡ [] → d.refusals ≡ [])
Post S Q E r (d, err e) = E d.files × (S → r ≢ [])

pub record Triple {A : Type 0} (S : Type 0) (P : Files → Type 0) (m : M A) (Q : A → Files → Type 0)
    (E : Files → Type 0) : Type 0 where
  pub holds : (d : Disk) → P d.files → Post S Q E d.refusals (m d)

later :
    {A : Type 0} (S : Type 0) (Q : A → Files → Type 0) (E : Files → Type 0) (r s : List Bool)
    (p : Disk × Result A)
    → (r ≡ [] → s ≡ [])
    → Post S Q E s p
    → Post S Q E r p
later S Q E r s (d, ok a) h (q, n) = (q, λ e. n (h e))
later S Q E r s (d, err x) h (q, n) = (q, λ t e. n t (h e))

next-Post :
    {A B : Type 0} (S : Type 0) (Q : A → Files → Type 0) (R : B → Files → Type 0)
    (E : Files → Type 0) (f : A → M B) (r : List Bool) (p : Disk × Result A)
    → Post S Q E r p
    → ((a : A) → Triple S (Q a) (f a) R E)
    → Post S R E r (next f p)
unfolding next
next-Post S Q R E f r (d, ok a) (q, n) k = later S R E r d.refusals (f a d) n ((k a).holds d q)
next-Post S Q R E f r (d, err e) h k = h

pub then-Triple :
    {A B : Type 0} {S : Type 0} {P : Files → Type 0} {Q : A → Files → Type 0}
    {R : B → Files → Type 0} {E : Files → Type 0} {m : M A} {f : A → M B}
    → Triple S P m Q E
    → ((a : A) → Triple S (Q a) (f a) R E)
    → Triple S P (m >>= f) R E
then-Triple {S = S} {Q = Q} {R = R} {E = E} {m = m} {f = f} h k = record {
  holds = λ d p. next-Post S Q R E f d.refusals (m d) (h.holds d p) k;
}

called-Post :
    {A : Type 0} (S : Type 0) (Q : A → Files → Type 0) (E : Files → Type 0) (change : Files → Files)
    (answer : Files → Result A) (f : Files) (r : List Bool)
    → E f
    → ((s : List Bool)
        → (r ≡ [] → s ≡ [])
        → Post S Q E r (record { files = change f; refusals = s }, answer f))
    → Post S Q E r (called change answer f r)
unfolding called
called-Post S Q E change answer f [] e h = h [] (λ n. refl)
called-Post S Q E change answer f (true ∷ rest) e h = (e, λ t n. ground (arith, n))
called-Post S Q E change answer f (false ∷ rest) e h = h rest (λ n. absurd (ground (arith, n)))

-- A call that always answers with a result.
pub call-Triple :
    {A : Type 0} (S : Type 0) (P : Files → Type 0) (Q : A → Files → Type 0) (E : Files → Type 0)
    (change : Files → Files) (answer : Files → A)
    → ((f : Files) → P f → E f)
    → ((f : Files) → P f → Q (answer f) (change f))
    → Triple S P (call change (λ f. ok (answer f))) Q E
unfolding call
call-Triple S P Q E change answer e h = record {
  holds = λ d p.
      called-Post S Q E change (λ f. ok (answer f)) d.files d.refusals (e d.files p)
        (λ s n. (h d.files p, n));
}

pub pure-Triple :
    {A : Type 0} (S : Type 0) (P : Files → Type 0) (Q : A → Files → Type 0) (E : Files → Type 0)
    (a : A)
    → ((f : Files) → P f → Q a f)
    → Triple S P (pure a) Q E
pure-Triple S P Q E a h = record { holds = λ d p. (h d.files p, λ n. n) }

Post-map :
    {A : Type 0} (S : Type 0) (Q R : A → Files → Type 0) (E F : Files → Type 0) (r : List Bool)
    (p : Disk × Result A)
    → ((a : A) (f : Files) → Q a f → R a f)
    → ((f : Files) → E f → F f)
    → Post S Q E r p
    → Post S R F r p
Post-map S Q R E F r (d, ok a) q e (h, n) = (q a d.files h, n)
Post-map S Q R E F r (d, err x) q e (h, n) = (e d.files h, n)

-- A weaker triple.
pub weaken-Triple :
    {A : Type 0} {S : Type 0} {P P' : Files → Type 0} {Q Q' : A → Files → Type 0}
    {E E' : Files → Type 0} {m : M A}
    → ((f : Files) → P' f → P f)
    → ((a : A) (f : Files) → Q a f → Q' a f)
    → ((f : Files) → E f → E' f)
    → Triple S P m Q E
    → Triple S P' m Q' E'
weaken-Triple {S = S} {Q = Q} {Q' = Q'} {E = E} {E' = E'} {m = m} p q e t = record {
  holds = λ d h. Post-map S Q Q' E E' d.refusals (m d) q e (t.holds d (p d.files h));
}

-- What a file that is read as `a` tells, or that it cannot be read.
abbrev pub Read :
    {A : Type 0} → Type 0 → (A → Files → Type 0) → (Files → Type 0) → Files → Result A → Type 0
Read S Q E f (ok a) = Q a f
Read S Q E f (err x) = E f × (S → ⊥)

read_post :
    {A : Type 0} (S : Type 0) (Q : A → Files → Type 0) (E : Files → Type 0) (f : Files)
    (a : Result A) (r s : List Bool)
    → (r ≡ [] → s ≡ [])
    → Read S Q E f a
    → Post S Q E r (record { files = f; refusals = s }, a)
read_post S Q E f (ok a) r s n h = (h, n)
read_post S Q E f (err x) r s n h = (h.0, λ t. absurd (h.1 t))

-- A call that leaves the files alone and may answer with an error.
pub read-Triple :
    {A : Type 0} (S : Type 0) (P : Files → Type 0) (Q : A → Files → Type 0) (E : Files → Type 0)
    (answer : Files → Result A)
    → ((f : Files) → P f → E f)
    → ((f : Files) → P f → Read S Q E f (answer f))
    → Triple S P (call (λ f. f) answer) Q E
unfolding call
read-Triple S P Q E answer e h = record {
  holds = λ d p.
      called-Post S Q E (λ f. f) answer d.files d.refusals (e d.files p)
        (λ s n. read_post S Q E d.files (answer d.files) d.refusals s n (h d.files p));
}

without :
    {A : Type 0} (Q : A → Files → Type 0) (E : Files → Type 0) (p : Disk × Result A)
    → Post (Unit {0}) Q E [] p
    → (a : A) × (p.1 ≡ ok a) × Q a p.0.files
without Q E (d, ok a) h = (a, refl, h.0)
without Q E (d, err e) h = absurd (h.1 tt refl)

-- Without refusals there is a result.
pub unrefused :
    {A : Type 0} {P : Files → Type 0} {Q : A → Files → Type 0} {E : Files → Type 0} {m : M A}
    (f : Files)
    → Triple (Unit {0}) P m Q E
    → P f
    → let t = m (record { files = f; refusals = [] }) in (a : A) × (t.1 ≡ ok a) × Q a t.0.files
unrefused {Q = Q} {E = E} {m = m} f t h =
    without Q E (m (record { files = f; refusals = [] }))
      (t.holds (record { files = f; refusals = [] }) h)

either_post :
    {A : Type 0} (S : Type 0) (Q : A → Files → Type 0) (E : Files → Type 0) (T : Files → Type 0)
    (r : List Bool) (p : Disk × Result A)
    → ((a : A) (f : Files) → Q a f → T f)
    → ((f : Files) → E f → T f)
    → Post S Q E r p
    → T p.0.files
either_post S Q E T r (d, ok a) q e h = q a d.files h.0
either_post S Q E T r (d, err x) q e h = e d.files h.0

-- With refusals or without, what follows from the result and from the error holds of the files.
pub either_way :
    {A : Type 0} {S : Type 0} {P : Files → Type 0} {Q : A → Files → Type 0} {E : Files → Type 0}
    {m : M A} (T : Files → Type 0) (d : Disk)
    → ((a : A) (f : Files) → Q a f → T f)
    → ((f : Files) → E f → T f)
    → Triple S P m Q E
    → P d.files
    → T (m d).0.files
either_way {S = S} {Q = Q} {E = E} {m = m} T d q e t h =
    either_post S Q E T d.refusals (m d) q e (t.holds d h)

-- A state that something unknown describes.
pub some-Triple :
    {A : Type 0} {C : Type 0} {S : Type 0} {P : C → Files → Type 0} {Q : C → A → Files → Type 0}
    {E : C → Files → Type 0} {m : M A}
    → ((c : C) → Triple S (P c) m (Q c) (E c))
    → Triple S (λ f. (c : C) × P c f) m (λ a f. (c : C) × Q c a f) (λ f. (c : C) × E c f)
some-Triple {C = C} {S = S} {Q = Q} {E = E} {m = m} t = record {
  holds = λ d h.
      Post-map S (Q h.0) (λ a f. (c : C) × Q c a f) (E h.0) (λ f. (c : C) × E c f) d.refusals (m d)
        (λ a f q. (h.0, q)) (λ f e. (h.0, e)) ((t h.0).holds d h.1);
}

-- What is known besides the files.
pub fact-Triple :
    {A : Type 0} {S : Type 0} {X : Type 0} {P : Files → Type 0} {Q : A → Files → Type 0}
    {E : Files → Type 0} {m : M A}
    → (X → Triple S P m Q E)
    → Triple S (λ f. X × P f) m Q E
fact-Triple t = record { holds = λ d h. (t h.0).holds d h.1 }
