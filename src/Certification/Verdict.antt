-- ===== src/Certification/Verdict.antt =====
-- client.go: on what a certificate that is returned rests.
use mathlib.Core.List.{Memᴰ}
use drones.Common.{
  ℕ, String, append, false, Option, none, some, List, [], ◌∷◌, ◌==◌, eq_iff, ◌≡◌, refl, sym, ap,
  ◌∙◌, arith, inl, inr, Bool-cases, Option-cases, itoa, to_upper, trim_space, is_empty,
}
use drones.Message.{Fields, get_string}
use drones.Bus.{ok, >>=?-eq-ok}
use drones.Certification.Regulator.{
  FirmwareCertResult, FirmwareCertificate, Options, Answers, read_certificate,
  parse_firmware_certificate, consume_claim, result_of, await_result, request_firmware_cert,
}

module _ {F : Type 0} where
  -- What an answer says that certifies with c.
  pub record Certifies (res : FirmwareCertResult F) (c : FirmwareCertificate F) : Type 0 where
    pub status : to_upper (trim_space res.status) ≡ "CERTIFIED"
    pub shown : c.status ≡ "CERTIFIED"
    pub certificate : res.certificate ≡ some c.raw
    pub named : c.certificate_id ≡ get_string c.raw "certificate_id"
    pub not_empty : is_empty c.certificate_id ≡ false

  read-Certifies :
      (res : FirmwareCertResult F) (o : Option (Fields F)) (c : FirmwareCertificate F)
      → res.certificate ≡ o
      → to_upper (trim_space res.status) ≡ "CERTIFIED"
      → read_certificate (to_upper (trim_space res.status)) o ≡ ok c
      → Certifies res c
  read-Certifies res none c same s h = cc
  read-Certifies res (some m) c same s h =
      elim (Bool-cases (is_empty (get_string m "certificate_id"))) [
        | inl blank ↦ absurd (ground (arith, blank, h))
        | inr named ↦ record {
          status = s;
          shown = ground (arith, named, h, s);
          certificate = ground (arith, named, h, same);
          named = ground (arith, named, h);
          not_empty = ground (arith, named, h);
        }
      ]

  parse-Certifies :
      (res : FirmwareCertResult F) (c : FirmwareCertificate F)
      → parse_firmware_certificate (some res) ≡ ok c
      → Certifies res c
  unfolding parse_firmware_certificate
  parse-Certifies res c h = elim (Bool-cases (to_upper (trim_space res.status) == "CERTIFIED")) [
    | inl is_certified ↦
        read-Certifies res res.certificate c refl ((eq_iff _ "CERTIFIED").0 is_certified)
          (rw is_certified at h)
    | inr no_certificate ↦ absurd (ground (arith, no_certificate, h))
  ]

  consume-mem :
      (id : String) (msgs : List (Option (FirmwareCertResult F))) (res : FirmwareCertResult F)
      → (consume_claim id msgs).0 ≡ some res
      → Memᴰ (some res) msgs × (res.request_id ≡ id)
  unfolding consume_claim
  consume-mem id [] res h = cc
  consume-mem id (none ∷ msgs) res h =
      let below = consume-mem id msgs res h in (Memᴰ.tail below.0, below.1)
  consume-mem id (some r ∷ msgs) res h = elim (Bool-cases (r.request_id == id)) [
    | inl own ↦
        let same : r ≡ res = ground (arith, own, h) in
        (
          Memᴰ.head (ap some (sym same)),
          ap (λ x. x.request_id) (sym same) ∙ (eq_iff r.request_id id).0 own,
        )
    | inr differs ↦
        let below = consume-mem id msgs res (rw differs at h) in (Memᴰ.tail below.0, below.1)
  ]

  await-Certifies :
      (a : Answers F) (id : String) (c : FirmwareCertificate F)
      → await_result a id ≡ ok c
      → (msgs : List (Option (FirmwareCertResult F))) × (res : FirmwareCertResult F) × (a.consumed
          ≡ ok msgs)
        × Memᴰ (some res) msgs
        × (res.request_id ≡ id)
        × Certifies res c
  unfolding await_result
  await-Certifies a id c h =
      let got = >>=?-eq-ok a.consumed (λ msgs. result_of a (consume_claim id msgs).0) h in
      elim (Option-cases (consume_claim id got.0).0) [
        | inl nothing ↦ absurd (let e : result_of a none ≡ ok c = rw nothing at (got.2) in cc)
        | inr (res, found) ↦
            let own = consume-mem id got.0 res found in
            (got.0, res, got.1, own.0, own.1, parse-Certifies res c (rw found at (got.2)))
      ]

  -- A certificate is returned only for a repository and a commit that are named, and only when the
  -- regulator answers the identifier of this very request with the status "CERTIFIED", in whatever
  -- letter case and with spaces around it or not, and with a certificate that has an identifier; that certificate and that identifier
  -- are the ones returned.
  pub request_firmware_cert-Certifies :
      (o : Options) (a : Answers F) (clock : ℕ) (c : FirmwareCertificate F)
      → request_firmware_cert o a clock ≡ ok c
      → (is_empty o.repository_url ≡ false)
        × (is_empty o.commit_hash ≡ false)
        × (msgs : List (Option (FirmwareCertResult F))) × (res : FirmwareCertResult F) × (a.consumed
            ≡ ok msgs)
        × Memᴰ (some res) msgs
        × (res.request_id ≡ append "req-" (itoa clock))
        × Certifies res c
  unfolding request_firmware_cert
  request_firmware_cert-Certifies o a clock c h =
      let sent : await_result a (append "req-" (itoa clock)) ≡ ok c = ground (arith, h) in
      let w = await-Certifies a (append "req-" (itoa clock)) c sent in
      (ground (arith, h), ground (arith, h), w.0, w.1, w.2, w.3, w.4, w.5)
