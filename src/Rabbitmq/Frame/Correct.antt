-- ===== src/Rabbitmq/Frame/Correct.antt =====
-- A frame that was written is read back, and a frame that is read stays under the ceiling.
use svcdoctor.Base.{
  ℕ, ◌+◌, ◌-◌, ◌≤◌, ◌<◌, false, not, [], ◌∷◌, ◌++◌, some, length, take, append_assoc, length-append,
  length-drop, Option-cases, inl, inr, ◌∙◌, drop, ltb, ◌==◌, ◌≡◌, refl, arith,
}
use svcdoctor.Base.Bytes.{Bytes}
use svcdoctor.Base.ReadFull.{read_bytes, read_bytes-concat, read_bytes-some}
use svcdoctor.Base.Result.{ok-injective, ok, >>=-eq-ok, reject-eq-ok}
use svcdoctor.Rabbitmq.Frame.{
  Stream, payload_max, Frame, big_endian, encode_method, read_full, append_uint16, append_uint32,
  read_frame, too_large, bad_end, too_short, not_a_method, wrong_channel,
}

read_full-of :
    (n : ℕ) (xs ys : Bytes) (s : Stream)
    → s.bytes ≡ xs ++ ys
    → length xs ≡ n
    → read_full n s ≡ ok (xs, record s { bytes = ys })
unfolding read_full
read_full-of n xs ys s e size =
    let got : read_bytes n s.bytes ≡ some (xs, ys) = rw (e, ← size) (read_bytes-concat xs ys) in
    rw (got, read_full)

read_full-ok :
    (n : ℕ) (s s' : Stream) (got : Bytes)
    → read_full n s ≡ ok (got, s')
    → (s.bytes ≡ got ++ s'.bytes) × (length got ≡ n)
unfolding read_full
read_full-ok n s s' got h = elim (Option-cases (read_bytes n s.bytes)) [
  | inl short ↦ absurd (ground arith)
  | inr ((got', rest), e) ↦
      let same : (got' ≡ got) × (rest ≡ s'.bytes) = ground arith in
      let (split, size) = read_bytes-some n s.bytes got' rest e in
      (rw (← same.0, ← same.1) split, rw (← same.0) size)
]

-- Reading a header and a payload whose size the header holds.
read_frame-of :
    (ceiling : ℕ) (hdr payload more : Bytes) (s : Stream)
    → s.bytes ≡ hdr ++ (payload ++ 0xCE ∷ more)
    → length hdr ≡ 7
    → big_endian 0 (drop 3 hdr) ≡ length payload
    → big_endian 0 (take 1 hdr) ≡ 1
    → big_endian 0 (take 2 (drop 1 hdr)) ≡ 0
    → length payload ≤ ceiling
    → 4 ≤ length payload
    → read_frame ceiling s
      ≡ ok (
        record {
          class_id = big_endian 0 (take 2 payload);
          method_id = big_endian 0 (take 2 (drop 2 payload));
          fields = drop 4 payload;
        },
        record s { bytes = more },
      )
unfolding read_frame
read_frame-of ceiling hdr payload more s e seven size type channel fits four =
    let small : ltb ceiling (length payload) ≡ false = ground arith in
    let enough : ltb (length payload) 4 ≡ false = ground arith in
    rw
      (
        read_full-of 7 hdr (payload ++ 0xCE ∷ more) s e seven,
        size,
        type,
        channel,
        small,
        enough,
        read_full-of (length payload) payload (0xCE ∷ more)
            (record s { bytes = payload ++ 0xCE ∷ more }) refl refl,
      )
      (unfold big_endian in refl)

big_endian-append_uint32 : (n : ℕ) → n < 4294967296 → big_endian 0 (append_uint32 n []) ≡ n
unfolding big_endian
big_endian-append_uint32 n h = omega arith

big_endian-append_uint16 : (n : ℕ) → n < 65536 → big_endian 0 (append_uint16 n []) ≡ n
unfolding big_endian
big_endian-append_uint16 n h = omega arith

-- A method frame that `encodeMethod` writes is read back as its class 10, its method and its
-- fields, and what follows it stays on the stream, when the payload fits under the ceiling, the
-- ceiling is at most 8184 and the method is a 16-bit number.
pub read_frame-encode_method :
    (ceiling method : ℕ) (payload more : Bytes) (s : Stream)
    → s.bytes ≡ encode_method method payload ++ more
    → 4 + length payload ≤ ceiling
    → ceiling ≤ payload_max
    → method < 65536
    → read_frame ceiling s
      ≡ ok (
        record { class_id = 10; method_id = method; fields = payload },
        record s { bytes = more },
      )
unfolding encode_method
read_frame-encode_method ceiling method payload more s e fits c m =
    let body = append_uint16 10 (append_uint16 method payload) in
    let hdr = 1 ∷ append_uint16 0 (append_uint32 (4 + length payload) []) in
    let bytes : s.bytes ≡ hdr ++ (body ++ 0xCE ∷ more) =
      e ∙ rw (append_assoc payload (0xCE ∷ []) more) refl in
    read_frame-of ceiling hdr body more s bytes refl
      (big_endian-append_uint32 (4 + length payload) (omega arith) ∙ omega arith)
      (unfold big_endian in refl) (unfold big_endian in refl) (omega arith) (omega arith)
    ∙ rw (big_endian-append_uint16 method m) (unfold big_endian in refl)

-- The bytes that a frame took, from those that its three reads took.
parts_of_frame :
    (ceiling class method : ℕ) (hdr payload end : Bytes) (s s₁ s₂ s₃ s' : Stream) (f : Frame)
    → (s.bytes ≡ hdr ++ s₁.bytes) × (length hdr ≡ 7)
    → (s₁.bytes ≡ payload ++ s₂.bytes) × (4 ≤ length payload) × (length payload ≤ ceiling)
    → (s₂.bytes ≡ end ++ s₃.bytes) × (length end ≡ 1)
    → (record { class_id = class; method_id = method; fields = drop 4 payload } ≡ f) × (s₃ ≡ s')
    → (4 + length f.fields ≤ ceiling)
      × ((front : Bytes) × (s.bytes ≡ front ++ s'.bytes) × (length front ≡ 12 + length f.fields))
parts_of_frame ceiling class method hdr payload end s s₁ s₂ s₃ s' f (b₁, n₁) (b₂, four, fits)
      (b₃, n₃) (made, rest) =
    let fields : length f.fields ≡ length payload - 4 = rw (← made) (length-drop 4 payload) in
    let joined : s.bytes ≡ (hdr ++ (payload ++ end)) ++ s'.bytes =
      rw
        (
          b₁,
          b₂,
          b₃,
          rest,
          append_assoc hdr (payload ++ end) s'.bytes,
          append_assoc payload end s'.bytes,
        )
        refl in
    let size : length (hdr ++ (payload ++ end)) ≡ 12 + length f.fields = omega (
      arith,
      length-append hdr (payload ++ end),
      length-append payload end,
      n₁,
      n₃,
      fields,
      four,
    ) in
    (omega (arith, fields, four, fits), (hdr ++ (payload ++ end), joined, size))

-- A frame that is read took twelve bytes and its fields from the front of the stream and left the
-- rest, and its payload is no larger than the ceiling.
pub read_frame-ok :
    (ceiling : ℕ) (s s' : Stream) (f : Frame)
    → read_frame ceiling s ≡ ok (f, s')
    → (4 + length f.fields ≤ ceiling)
      × ((front : Bytes) × (s.bytes ≡ front ++ s'.bytes) × (length front ≡ 12 + length f.fields))
unfolding read_frame
read_frame-ok ceiling s s' f h =
    let ((hdr, s₁), e₁, h) = >>=-eq-ok (read_full 7 s) _ h in
    let (fits, h) = reject-eq-ok (ltb ceiling (big_endian 0 (drop 3 hdr))) too_large _ h in
    let (_, h) = reject-eq-ok (not (big_endian 0 (take 1 hdr) == 1)) not_a_method _ h in
    let (_, h) = reject-eq-ok (not (big_endian 0 (take 2 (drop 1 hdr)) == 0)) wrong_channel _ h in
    let (four, h) = reject-eq-ok (ltb (big_endian 0 (drop 3 hdr)) 4) too_short _ h in
    let ((payload, s₂), e₂, h) = >>=-eq-ok (read_full (big_endian 0 (drop 3 hdr)) s₁) _ h in
    let ((end, s₃), e₃, h) = >>=-eq-ok (read_full 1 s₂) _ h in
    let (_, h) = reject-eq-ok (not (big_endian 0 end == 0xCE)) bad_end _ h in
    let (b₂, n₂) = read_full-ok (big_endian 0 (drop 3 hdr)) s₁ s₂ payload e₂ in
    parts_of_frame ceiling (big_endian 0 (take 2 payload)) (big_endian 0 (take 2 (drop 2 payload)))
      hdr payload end s s₁ s₂ s₃ s' f (read_full-ok 7 s s₁ hdr e₁)
      (b₂, ground (arith, n₂, four), ground (arith, n₂, fits)) (read_full-ok 1 s₂ s₃ end e₃)
      (ok-injective h)
