-- ===== src/Spiutils/Io/Laws.antt =====
-- What a writer writes and a reader reads, and how both compose along a message.
use tock_on_titan.Common.{
  ℕ, zero, suc, ◌^◌, ◌<◌, ◌≡◌, refl, List, [], ◌∷◌, ◌++◌, ltb, arith, ◌⊎◌, length, drop,
  length-append, length-drop, take-append, Bool-cases, inl, inr, false, drop-append, append_assoc,
  append-nil, Option, some, take, ◌≤◌, ◌∙◌, ap, ltb→lt, lt→ltb, take-append_short, take-append_long,
  ◌+◌, ◌-◌,
}
use tock_on_titan.Spiutils.Io.{
  Result, ok, err, write_failed, buffer_exhausted, Reader, ◌>>=◌, succeed, in_range, read_bytes,
  read_u8, read_int, Cursor, WriteResult, Writer, ◌>>◌, write_bytes, write_u8, write_int, ByteOrder,
}

pub Result-cases {ℓ κ} :
    {E : Type ℓ} {A : Type κ} (r : Result E A) → ((a : A) × (r ≡ ok a)) ⊎ ((e : E) × (r ≡ err e))
Result-cases (ok a) = inl (a, refl)
Result-cases (err e) = inr (e, refl)

-- A cursor after some bytes more.
abbrev pub after_bytes : List ℕ → Cursor → Cursor
after_bytes bytes c = record { written = c.written ++ bytes; room = drop (length bytes) c.room }

-- The writer writes exactly `bytes` where they fit; where they do not, it fails, and has written
-- some of the first of them, of which there was room.
pub record Writes (w : Writer) (bytes : List ℕ) : Type 0 where
  pub fits : (c : Cursor) → length bytes ≤ length c.room → w c ≡ ok (after_bytes bytes c)
  pub too_long :
      (c : Cursor)
      → length c.room < length bytes
      → (n : ℕ) × (w c ≡ err (write_failed buffer_exhausted, after_bytes (take n bytes) c))
        × (n ≤ length c.room)

-- The reader reads `a` from `bytes`, whatever follows, and leaves what follows.
pub record Reads {ℓ} {A : Type ℓ} (p : Reader A) (bytes : List ℕ) (a : A) : Type ℓ where
  pub reads : (rest : List ℕ) → p (bytes ++ rest) ≡ ok (a, rest)

drop-nil {ℓ} : {A : Type ℓ} (n : ℕ) → drop {A = A} n [] ≡ []
drop-nil zero = refl
drop-nil (suc n) = refl

drop-length-append {ℓ} :
    {A : Type ℓ} (xs ys zs : List A)
    → drop (length ys) (drop (length xs) zs) ≡ drop (length (xs ++ ys)) zs
drop-length-append [] ys zs = refl
drop-length-append (x ∷ xs) ys [] = drop-nil (length ys)
drop-length-append (x ∷ xs) ys (z ∷ zs) = drop-length-append xs ys zs

after_bytes-append :
    (a b : List ℕ) (c : Cursor) → after_bytes b (after_bytes a c) ≡ after_bytes (a ++ b) c
after_bytes-append a b c = rw (append_assoc c.written a b, drop-length-append {0} a b c.room) refl

-- A message is written and read part by part.
pub Writes->> : {v w : Writer} {a b : List ℕ} → Writes v a → Writes w b → Writes (v >> w) (a ++ b)
Writes->> {v} {w} {a} {b} p q = record {
  fits = λ c h.
      let room : length a + length b ≤ length c.room = omega (arith, length-append {0} a b, h) in
      rw (◌>>◌, p.fits c (omega (arith, room)))
        (q.fits (after_bytes a c) (omega (arith, length-drop {0} (length a) c.room, room))
          ∙ ap ok (after_bytes-append a b c));
  too_long = λ c h. elim (Bool-cases (ltb (length c.room) (length a))) [
    | inl short ↦ first_fails c (ltb→lt _ _ short) (p.too_long c (ltb→lt _ _ short))
    | inr enough ↦
        let room : length a ≤ length c.room = ground (arith, enough) in
        second_fails c room (
          q.too_long (after_bytes a c)
            (omega (arith, length-append {0} a b, length-drop {0} (length a) c.room, room, h)))
  ];
}
  where
    Fails : List ℕ → Cursor → WriteResult → Type 0
    Fails bytes c r =
        (n : ℕ) × (r ≡ err (write_failed buffer_exhausted, after_bytes (take n bytes) c))
        × (n ≤ length c.room)

    first_fails :
        (c : Cursor) → length c.room < length a → Fails a c (v c) → Fails (a ++ b) c ((v >> w) c)
    first_fails c short (n, e, k) =
        (n, rw (◌>>◌, e, take-append_short n a b (omega (arith, k, short))) refl, k)

    second_fails :
        (c : Cursor)
        → length a ≤ length c.room
        → Fails b (after_bytes a c) (w (after_bytes a c))
        → Fails (a ++ b) c ((v >> w) c)
    second_fails c room (n, e, k) =
        let m : length a + n - length a ≡ n = omega arith in
        let front : take (length a + n) (a ++ b) ≡ a ++ take n b =
          rw m at (take-append_long (length a + n) a b (omega arith)) in
        (
          length a + n,
          rw (◌>>◌, p.fits c room, e, front)
              (ap (λ d. err (write_failed buffer_exhausted, d))
                (after_bytes-append a (take n b) c)),
          omega (arith, k, room, length-drop {0} (length a) c.room),
        )

pub Writes-bytes : (bytes : List ℕ) → Writes (write_bytes bytes) bytes
unfolding write_bytes
Writes-bytes bytes = record {
  fits = λ c h. let e : ltb (length c.room) (length bytes) ≡ false = ground arith in rw e refl;
  too_long = λ c h. (0, rw (lt→ltb _ _ h, append-nil c.written) refl, omega arith);
}

pub Writes-u8 : (n : ℕ) → Writes (write_u8 n) (n ∷ [])
unfolding write_u8
Writes-u8 n = Writes-bytes (n ∷ [])

pub Writes-none : Writes (λ c. ok c) []
Writes-none = record {
  fits = λ c h. rw (append-nil c.written) refl;
  too_long = λ c h. absurd (omega arith);
}

pub Writes-int : (order : ByteOrder) (w n : ℕ) → Writes (write_int order w n) (order.write_uint w n)
unfolding write_int
Writes-int order w n = Writes-bytes (order.write_uint w n)

pub Reads->>= {ℓ κ} :
    {A : Type ℓ} {B : Type κ} {p : Reader A} {bs cs : List ℕ} (f : A → Reader B) {a : A} {x : B}
    → Reads p bs a
    → Reads (f a) cs x
    → Reads (p >>= f) (bs ++ cs) x
Reads->>= {bs = bs} {cs = cs} f m k = record {
  reads = λ rest. rw (append_assoc bs cs rest) (rw (m.reads (cs ++ rest), ◌>>=◌) (k.reads rest));
}

pub Reads-succeed {ℓ} : {A : Type ℓ} (a : A) → Reads (succeed a) [] a
Reads-succeed a = record { reads = λ rest. refl }

pub Reads-in_range {ℓ} : {A : Type ℓ} {o : Option A} {a : A} → o ≡ some a → Reads (in_range o) [] a
Reads-in_range e = record { reads = λ rest. rw e }

pub Reads-bytes : (n : ℕ) (bytes : List ℕ) → length bytes ≡ n → Reads (read_bytes n) bytes bytes
unfolding read_bytes
Reads-bytes n bytes e = record {
  reads = λ rest. rw (← e) (
      ground (
        arith,
        length-append {0} bytes rest,
        take-append {0} bytes rest,
        drop-append {0} bytes rest,
      ));
}

pub Reads-u8 : (n : ℕ) → Reads read_u8 (n ∷ []) n
unfolding read_u8
Reads-u8 n = record { reads = λ rest. rw ((Reads-bytes 1 (n ∷ []) refl).reads rest, read_u8) }

pub Reads-int :
    (order : ByteOrder) (w n : ℕ) → n < 256 ^ w → Reads (read_int order w) (order.write_uint w n) n
unfolding read_int
Reads-int order w n h = record {
  reads = λ rest.
      rw ((Reads-bytes w (order.write_uint w n) (order.length-write w n)).reads rest, read_int)
        (rw (order.read-write w n h));
}

-- The last part of a message, and the value made of all parts.
pub Reads-map {ℓ κ} :
    {A : Type ℓ} {B : Type κ} {p : Reader A} {bs : List ℕ} (f : A → B) {a : A}
    → Reads p bs a
    → Reads (p >>= λ x. succeed (f x)) bs (f a)
Reads-map f m = record { reads = λ rest. rw (m.reads rest, ◌>>=◌) }

-- What is written reads back as the value, whatever follows it, and takes `n` bytes.
pub record RoundTrip {ℓ} {A : Type ℓ} (w : Writer) (p : Reader A) (a : A) (n : ℕ) : Type ℓ where
  pub bytes : List ℕ
  pub written : Writes w bytes
  pub read_back : Reads p bytes a
  pub size : length bytes ≡ n
