-- ===== src/Http/Order.antt =====
-- The order of headers, which the maps forget.
use libcoda_net.Base.{
  false, List, [], ◌∷◌, ◌++◌, ◌≡◌, ◌∙◌, refl, ap, sym, Bytes, Dict, assign, same, same_iff, All,
  Without, arith,
}
use mathlib.Core.Path.{subst}
use mathlib.Core.Logic.{∥∥₁_elim}
use mathlib.Core.List.{Perm, Permᴰ}
use libcoda_net.Base.Maps.Order.{assign_comm}
use libcoda_net.Http.Scan.{Code, scanned_all, sscanf}
use libcoda_net.Http.Response.{Response, parse, parsed}
use libcoda_net.Http.Messages.{crlf, IsHeader, write_headers, assign_all}
use libcoda_net.Http.Parsing.{parse-write_headers}

-- No two headers have the same name.
abbrev pub Distinct : List (Bytes × Bytes) → Type 0
Distinct [] = Unit {0}
Distinct (h ∷ hs) = All (λ k. same (h.0) (k.0) ≡ false) hs × Distinct hs

All-permuted :
    (P : Bytes × Bytes → Type 0) {hs ks : List (Bytes × Bytes)} → Permᴰ hs ks → All P hs → All P ks
All-permuted P Permᴰ.nil a = a
All-permuted P (Permᴰ.cons e d) (p, a) = (subst P e p, All-permuted P d a)
All-permuted P (Permᴰ.swap e f) (p, (q, a)) = (subst P f q, (subst P e p, a))
All-permuted P (Permᴰ.trans c d) a = All-permuted P d (All-permuted P c a)

same_sym : (k j : Bytes) → same k j ≡ false → same j k ≡ false
same_sym k j h = grind (arith, same_iff k j, same_iff j k)

Distinct-permuted : {hs ks : List (Bytes × Bytes)} → Permᴰ hs ks → Distinct hs → Distinct ks
Distinct-permuted Permᴰ.nil u = u
Distinct-permuted (Permᴰ.cons {b = b} {l₂ = ks} e d) (a, u) = (
  subst (λ (h : Bytes × Bytes). All (λ k. same (h.0) (k.0) ≡ false) ks) e (All-permuted _ d a),
  Distinct-permuted d u,
)
Distinct-permuted (Permᴰ.swap {a = a} {b = b} {l = l} e f) ((n, p), (q, u)) =
    subst
      (λ (h : (Bytes × Bytes) × (Bytes × Bytes)).
        ((same (h.0.0) (h.1.0) ≡ false) × All (λ k. same (h.0.0) (k.0) ≡ false) l)
        × (All (λ k. same (h.1.0) (k.0) ≡ false) l × Distinct l))
      (λ i. (f i, e i)) ((same_sym (a.0) (b.0) n, q), (p, u))
Distinct-permuted (Permᴰ.trans c d) u = Distinct-permuted d (Distinct-permuted c u)

assign_all-permuted :
    {hs ks : List (Bytes × Bytes)} (m : Dict)
    → Permᴰ hs ks
    → Distinct hs
    → assign_all hs m ≡ assign_all ks m
unfolding assign_all
assign_all-permuted m Permᴰ.nil u = refl
assign_all-permuted m (Permᴰ.cons {b = b} {l₁ = hs} e d) (a, u) =
    ap (λ (h : Bytes × Bytes). assign_all hs (assign (h.0) (h.1) m)) e
    ∙ assign_all-permuted (assign (b.0) (b.1) m) d u
assign_all-permuted m (Permᴰ.swap {a = a} {b = b} {l = l} e f) ((n, p), u) =
    ap (assign_all l) (sym (assign_comm (a.0) (b.0) (a.1) (b.1) m n))
    ∙ ap
        (λ (h : (Bytes × Bytes) × (Bytes × Bytes)).
          assign_all l (assign (h.0.0) (h.0.1) (assign (h.1.0) (h.1.1) m)))
        (λ i. (e i, f i))
assign_all-permuted m (Permᴰ.trans c d) u =
    assign_all-permuted m c u ∙ assign_all-permuted m d (Distinct-permuted c u)

Dict-set : IsSet Dict
Dict-set = hlevel

assign_all-Perm :
    {hs ks : List (Bytes × Bytes)} (m : Dict)
    → Perm hs ks
    → Distinct hs
    → assign_all hs m ≡ assign_all ks m
assign_all-Perm {hs} {ks} m p u =
    ∥∥₁_elim p (Dict-set (assign_all hs m) (assign_all ks m)) (λ d. assign_all-permuted m d u)

-- Two responses that differ only in the order of their headers, of which no two have the same name
-- and none has a colon in its name, are both parsed, and into the same headers, content, version and
-- code.
pub parse-Perm :
    (r : Response) (status body v w : Bytes) (c : Code) (hs ks : List (Bytes × Bytes))
    → Without b'\r' status
    → sscanf status ≡ scanned_all v c w
    → All IsHeader hs
    → All IsHeader ks
    → Perm hs ks
    → Distinct hs
    → (a b : Response) × (parse r (status ++ crlf (write_headers hs (crlf body))) ≡ parsed a)
      × (parse r (status ++ crlf (write_headers ks (crlf body))) ≡ parsed b)
      × (a.transfer ≡ b.transfer)
      × (a.code ≡ b.code)
parse-Perm r status body v w c hs ks line scans h k p u = (
  _,
  _,
  parse-write_headers r status body v w c hs line scans h,
  parse-write_headers r status body v w c ks line scans k,
  ap (λ m. record { content = body; headers = m; version = v }) (assign_all-Perm [] p u),
  refl,
)
