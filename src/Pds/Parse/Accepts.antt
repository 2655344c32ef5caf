-- ===== src/Pds/Parse/Accepts.antt =====
-- The steps of a `Parse` that ends well.
use fie_importer.Prelude.{
  ℕ, ◌≡◌, refl, sym, ap, ◌∙◌, ◌≢◌, ◌↔◌, inl, inr, Bool, true, false, ◌&&◌, Option, none, some, [],
  ◌∷◌, arith, Bool-cases, ==_iff, ℤ, pos, negsuc,
}
use fie_importer.Prelude.Bytes.{Bytes}
use fie_importer.Net.{Addr, has_zone, unmap}
use fie_importer.Pds.Parse.{
  Line, Row, Result, ok, icmp, icmpv6, udp, HalfWords, Ports, half_words, parse, read_line,
  read_destination, agent_of, row_of, is_some, int_eq, ◌>>=◌, ok_of_bind,
}

-- The line carries a protocol with its next header, which give the two half-words.
pub data Carries (l : Line) (w : ℕ × ℕ) : Type 0 where
  by_icmp :
      (h : HalfWords)
      → l.protocol ≡ pos icmp
      → l.next_header.icmp_header ≡ some h
      → w ≡ (h.first, 0)
      → Carries l w
  by_icmpv6 :
      (h : HalfWords)
      → l.protocol ≡ pos icmpv6
      → l.next_header.icmpv6_header ≡ some h
      → w ≡ (h.first, 0)
      → Carries l w
  by_udp :
      (h : Ports)
      → l.protocol ≡ pos udp
      → l.next_header.udp_header ≡ some h
      → w ≡ (h.source_port, h.destination_port)
      → Carries l w

is_some_value {ℓ} : {A : Type ℓ} (o : Option A) → is_some o ≡ true → (a : A) × (o ≡ some a)
is_some_value none h = cc
is_some_value (some a) h = (a, refl)

int_eq_sound : (z : ℤ) (n : ℕ) → int_eq z n ≡ true → z ≡ pos n
int_eq_sound (pos m) n h = ap pos ((==_iff m n).0 h)
int_eq_sound (negsuc m) n h = cc

and_true : (a b : Bool) → (a && b) ≡ true → (a ≡ true) × (b ≡ true)
and_true true true h = (refl, refl)
and_true true false h = cc
and_true false b h = cc

half_words_sound : (l : Line) (w : ℕ × ℕ) → half_words l ≡ ok w → Carries l w
unfolding half_words
half_words_sound l w h =
    elim (Bool-cases (int_eq l.protocol icmp && is_some l.next_header.icmp_header)) [
      | inl e ↦
          let (p, q) = and_true _ _ e in
          let (words, found) = is_some_value l.next_header.icmp_header q in
          by_icmp words (int_eq_sound l.protocol icmp p) found (ground (arith, found))
      | inr e ↦
          elim (Bool-cases (int_eq l.protocol icmpv6 && is_some l.next_header.icmpv6_header)) [
            | inl e' ↦
                let (p, q) = and_true _ _ e' in
                let (words, found) = is_some_value l.next_header.icmpv6_header q in
                by_icmpv6 words (int_eq_sound l.protocol icmpv6 p) found (ground (arith, found))
            | inr e' ↦
                elim (Bool-cases (int_eq l.protocol udp && is_some l.next_header.udp_header)) [
                  | inl e'' ↦
                      let (p, q) = and_true _ _ e'' in
                      let (ports, found) = is_some_value l.next_header.udp_header q in
                      by_udp ports (int_eq_sound l.protocol udp p) found (ground (arith, found))
                  | inr e'' ↦ absurd (ground arith)
                ]
          ]
    ]

pub half_words_complete : (l : Line) (w : ℕ × ℕ) → Carries l w → half_words l ≡ ok w
unfolding half_words
half_words_complete l w (by_icmp h p q e) = rw (p, q, e)
half_words_complete l w (by_icmpv6 h p q e) = rw (p, q, e)
half_words_complete l w (by_udp h p q e) = rw (p, q, e)

four_steps {ℓ} :
    {A B C D R : Type ℓ} (m : Result A) (f : A → Result B) (g : A → Result C) (k : A → Result D)
    (make : A → B → C → D → R) {r : R}
    → (m >>= λ a. f a >>= λ b. g a >>= λ c. k a >>= λ d. ok (make a b c d)) ≡ ok r
    → (a : A) × (b : B) × (c : C) × (d : D) × (m ≡ ok a)
      × (f a ≡ ok b)
      × (g a ≡ ok c)
      × (k a ≡ ok d)
      × (make a b c d ≡ r)
four_steps m f g k make h =
    let (a, ha, h1) = ok_of_bind m _ h in
    let (b, hb, h2) = ok_of_bind (f a) _ h1 in
    let (c, hc, h3) = ok_of_bind (g a) _ h2 in
    let (d, hd, h4) = ok_of_bind (k a) _ h3 in (a, b, c, d, ha, hb, hc, hd, cc h4)

module _ (unmarshal : Bytes → Option Line) (parse_addr : Bytes → Option Addr) where
  read_line_sound :
      (bytes : Bytes) (l : Line)
      → read_line unmarshal parse_addr bytes ≡ ok l
      → unmarshal bytes ≡ some l
  unfolding read_line
  read_line_sound bytes l h = ground arith

  agent_of_sound :
      (id agent : Bytes) → agent_of unmarshal parse_addr id ≡ ok agent → (id ≢ []) × (agent ≡ id)
  agent_of_sound [] agent h = cc
  agent_of_sound (c ∷ s) agent h = ((λ e. cc), cc)

  read_destination_sound :
      (text : Bytes) (a : Addr)
      → read_destination unmarshal parse_addr text ≡ ok a
      → (parse_addr text ≡ some a) × (has_zone a ≡ false)
  unfolding read_destination
  read_destination_sound text a h = ground arith

  -- The values of the steps
  pub record Accepts (bytes : Bytes) (id : ℕ) (row : Row) : Type 0 where
    pub line : Line
    pub addr : Addr
    pub words : ℕ × ℕ
    pub is_json : unmarshal bytes ≡ some line
    pub has_agent : line.agent_id ≢ []
    pub has_destination : parse_addr line.destination_address ≡ some addr
    pub no_zone : has_zone addr ≡ false
    pub carries : Carries line words
    pub makes : row ≡ row_of id line.agent_id line (unmap addr) words

  assemble :
      (bytes : Bytes) (id : ℕ) (row : Row) (l : Line) (agent : Bytes) (a : Addr) (w : ℕ × ℕ)
      → read_line unmarshal parse_addr bytes ≡ ok l
      → agent_of unmarshal parse_addr l.agent_id ≡ ok agent
      → read_destination unmarshal parse_addr l.destination_address ≡ ok a
      → half_words l ≡ ok w
      → row_of id agent l (unmap a) w ≡ row
      → Accepts bytes id row
  assemble bytes id row l agent a w hl ha hd hw e =
      let (nonempty, same) = agent_of_sound l.agent_id agent ha in
      let (found, plain) = read_destination_sound l.destination_address a hd in
      record {
        line = l;
        addr = a;
        words = w;
        is_json = read_line_sound bytes l hl;
        has_agent = nonempty;
        has_destination = found;
        no_zone = plain;
        carries = half_words_sound l w hw;
        makes = sym e ∙ ap (λ x. row_of id x l (unmap a) w) same;
      }

  parse_sound :
      (bytes : Bytes) (id : ℕ) (row : Row)
      → parse unmarshal parse_addr bytes id ≡ ok row
      → Accepts bytes id row
  unfolding parse
  parse_sound bytes id row h =
      let (l, agent, a, w, hl, ha, hd, hw, e) =
        four_steps (read_line unmarshal parse_addr bytes)
          (λ l. agent_of unmarshal parse_addr l.agent_id)
          (λ l. read_destination unmarshal parse_addr l.destination_address) half_words
          (λ l agent a w. row_of id agent l (unmap a) w) h in
      assemble bytes id row l agent a w hl ha hd hw e

  agent_of_complete : (id : Bytes) → id ≢ [] → agent_of unmarshal parse_addr id ≡ ok id
  agent_of_complete [] h = absurd (h refl)
  agent_of_complete (c ∷ s) h = refl

  read_line_complete :
      (bytes : Bytes) (l : Line)
      → unmarshal bytes ≡ some l
      → read_line unmarshal parse_addr bytes ≡ ok l
  unfolding read_line
  read_line_complete bytes l h = ground arith

  read_destination_complete :
      (text : Bytes) (a : Addr)
      → parse_addr text ≡ some a
      → has_zone a ≡ false
      → read_destination unmarshal parse_addr text ≡ ok a
  unfolding read_destination
  read_destination_complete text a h z = ground arith

  parse_complete :
      (bytes : Bytes) (id : ℕ) (row : Row)
      → Accepts bytes id row
      → parse unmarshal parse_addr bytes id ≡ ok row
  unfolding parse
  parse_complete bytes id row acc =
      rw
        (
          read_line_complete bytes acc.line acc.is_json,
          agent_of_complete acc.line.agent_id acc.has_agent,
          read_destination_complete acc.line.destination_address acc.addr acc.has_destination
              acc.no_zone,
          half_words_complete acc.line acc.words acc.carries,
        )
        (ap ok (sym acc.makes))

  -- `Parse` returns a row exactly when each of its steps ends well, and `row_of` their values is the row.
  pub parse_lem :
      (bytes : Bytes) (id : ℕ) (row : Row)
      → (parse unmarshal parse_addr bytes id ≡ ok row) ↔ Accepts bytes id row
  parse_lem bytes id row = (parse_sound bytes id row, parse_complete bytes id row)
