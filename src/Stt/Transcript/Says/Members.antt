-- ===== src/Stt/Transcript/Says/Members.antt =====
-- The loop of stt_transcript_parse_line takes in what is heard, member by member.
use subtitle_overlay_fw.Base.{
  ℕ, ◌≡◌, refl, sym, ap, ◌∙◌, Option, none, some, Option-cases, List, [], ◌∷◌, inl, inr,
}
use subtitle_overlay_fw.Stt.Json.{Floating}
use subtitle_overlay_fw.Stt.Json.Tree.{IsNumber}
use subtitle_overlay_fw.Stt.Transcript.{Dialect, partial, transcript, Progress}
use subtitle_overlay_fw.Stt.Transcript.Message.{
  Entry, seq_entry, final_entry, type_entry, start_entry, end_entry, text_entry, other_entry,
  entry_field, IsEntry, AreEntries, double_or, take_in, take_in_all,
}
use subtitle_overlay_fw.Stt.Transcript.Values.{double_of-strtod}
use subtitle_overlay_fw.Stt.Transcript.Says.{Heard, hear, hear_all, is_some, Rel, Matches}

module _ (f : Floating) where
  -- A number is read whole, so no default is taken.
  start_value :
      (token : List ℕ) (d : f.Double)
      → IsNumber f token
      → double_or f d (f.strtod token) ≡ double_or f (f.of_nat 0) (f.strtod token)
  start_value [] d n = absurd n
  start_value (c ∷ cs) d n =
      double_of-strtod f (c ∷ cs) n.1.0 d n.1.1
      ∙ sym (double_of-strtod f (c ∷ cs) n.1.0 (f.of_nat 0) n.1.1)

  take_in-hear :
      (e : Entry) (h : Heard f.Double) (p : Progress f.Double)
      → IsEntry f e
      → Rel f h p
      → Matches f (hear f e h) (take_in f (entry_field e) e p)
  take_in-hear (seq_entry token) h p w r = elim (Option-cases h.number) [
    | inr (x, s) ↦ rw (s, r.has_seq ∙ ap is_some s) refl
    | inl n ↦
        rw (n, r.has_seq ∙ ap is_some n)
          (
            _,
            (
              refl,
              record {
                has_seq = refl;
                has_final = r.has_final;
                has_type = r.has_type;
                has_start = r.has_start;
                has_end = r.has_end;
                has_text = r.has_text;
                seq_is = refl;
                final_is = r.final_is;
                type_is = r.type_is;
                start_is = r.start_is;
                end_is = r.end_is;
                text_is = r.text_is;
              },
            ),
          )
  ]
  take_in-hear (final_entry b) h p w r = elim (Option-cases h.finality) [
    | inr (x, s) ↦ rw (s, r.has_final ∙ ap is_some s) refl
    | inl n ↦
        rw (n, r.has_final ∙ ap is_some n)
          (
            _,
            (
              refl,
              record {
                has_seq = r.has_seq;
                has_final = refl;
                has_type = r.has_type;
                has_start = r.has_start;
                has_end = r.has_end;
                has_text = r.has_text;
                seq_is = r.seq_is;
                final_is = refl;
                type_is = r.type_is;
                start_is = r.start_is;
                end_is = r.end_is;
                text_is = r.text_is;
              },
            ),
          )
  ]
  take_in-hear (start_entry token) h p w r = elim (Option-cases h.from) [
    | inr (x, s) ↦ rw (s, r.has_start ∙ ap is_some s) refl
    | inl n ↦
        rw (n, r.has_start ∙ ap is_some n)
          (
            _,
            (
              refl,
              record {
                has_seq = r.has_seq;
                has_final = r.has_final;
                has_type = r.has_type;
                has_start = refl;
                has_end = r.has_end;
                has_text = r.has_text;
                seq_is = r.seq_is;
                final_is = r.final_is;
                type_is = r.type_is;
                start_is = start_value token p.start_sec w;
                end_is = r.end_is;
                text_is = r.text_is;
              },
            ),
          )
  ]
  take_in-hear (end_entry token) h p w r = elim (Option-cases h.until) [
    | inr (x, s) ↦ rw (s, r.has_end ∙ ap is_some s) refl
    | inl n ↦
        rw (n, r.has_end ∙ ap is_some n)
          (
            _,
            (
              refl,
              record {
                has_seq = r.has_seq;
                has_final = r.has_final;
                has_type = r.has_type;
                has_start = r.has_start;
                has_end = refl;
                has_text = r.has_text;
                seq_is = r.seq_is;
                final_is = r.final_is;
                type_is = r.type_is;
                start_is = r.start_is;
                end_is = start_value token p.end_sec w;
                text_is = r.text_is;
              },
            ),
          )
  ]
  take_in-hear (text_entry ps) h p w r = elim (Option-cases h.words) [
    | inr (x, s) ↦ rw (s, r.has_text ∙ ap is_some s) refl
    | inl n ↦
        rw (n, r.has_text ∙ ap is_some n)
          (
            _,
            (
              refl,
              record {
                has_seq = r.has_seq;
                has_final = r.has_final;
                has_type = r.has_type;
                has_start = r.has_start;
                has_end = r.has_end;
                has_text = refl;
                seq_is = r.seq_is;
                final_is = r.final_is;
                type_is = r.type_is;
                start_is = r.start_is;
                end_is = r.end_is;
                text_is = refl;
              },
            ),
          )
  ]
  take_in-hear (type_entry Dialect.final) h p w r = elim (Option-cases h.kind) [
    | inr (x, s) ↦ rw (s, r.has_type ∙ ap is_some s) refl
    | inl n ↦
        rw (n, r.has_type ∙ ap is_some n)
          (
            _,
            (
              refl,
              record {
                has_seq = r.has_seq;
                has_final = r.has_final;
                has_type = refl;
                has_start = r.has_start;
                has_end = r.has_end;
                has_text = r.has_text;
                seq_is = r.seq_is;
                final_is = r.final_is;
                type_is = (refl, refl);
                start_is = r.start_is;
                end_is = r.end_is;
                text_is = r.text_is;
              },
            ),
          )
  ]
  take_in-hear (type_entry partial) h p w r = elim (Option-cases h.kind) [
    | inr (x, s) ↦ rw (s, r.has_type ∙ ap is_some s) refl
    | inl n ↦
        rw (n, r.has_type ∙ ap is_some n)
          (
            _,
            (
              refl,
              record {
                has_seq = r.has_seq;
                has_final = r.has_final;
                has_type = refl;
                has_start = r.has_start;
                has_end = r.has_end;
                has_text = r.has_text;
                seq_is = r.seq_is;
                final_is = r.final_is;
                type_is = (refl, refl);
                start_is = r.start_is;
                end_is = r.end_is;
                text_is = r.text_is;
              },
            ),
          )
  ]
  take_in-hear (type_entry transcript) h p w r = elim (Option-cases h.kind) [
    | inr (x, s) ↦ rw (s, r.has_type ∙ ap is_some s) refl
    | inl n ↦
        rw (n, r.has_type ∙ ap is_some n)
          (
            _,
            (
              refl,
              record {
                has_seq = r.has_seq;
                has_final = r.has_final;
                has_type = refl;
                has_start = r.has_start;
                has_end = r.has_end;
                has_text = r.has_text;
                seq_is = r.seq_is;
                final_is = r.final_is;
                type_is = refl;
                start_is = r.start_is;
                end_is = r.end_is;
                text_is = r.text_is;
              },
            ),
          )
  ]
  take_in-hear (other_entry key v) h p w r = (p, (refl, r))

  pub take_in_all-hear_all :
      (es : List Entry) (h : Heard f.Double) (p : Progress f.Double)
      → AreEntries f es
      → Rel f h p
      → Matches f (hear_all f es h) (take_in_all f es p)
  unfolding hear_all take_in_all
  take_in_all-hear_all [] h p w r = (p, (refl, r))
  take_in_all-hear_all (e ∷ es) h p w r =
      go (hear f e h) (take_in-hear e h p w.0 r) (λ h' q r'. take_in_all-hear_all es h' q w.1 r')
    where
      go :
          (o : Option (Heard f.Double))
          → Matches f o (take_in f (entry_field e) e p)
          → ((h' : Heard f.Double) (q : Progress f.Double)
              → Rel f h' q
              → Matches f (hear_all f es h') (take_in_all f es q))
          → Matches f
              (elim o [ none ↦ none | some h' ↦ hear_all f es h' ])
              (take_in_all f (e ∷ es) p)
      go none m ih = rw (m, take_in_all) refl
      go (some h') (q, (m, r')) ih = rw (m, take_in_all) (ih h' q r')
