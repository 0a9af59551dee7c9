-- ===== src/Mail/Imap/Sent/Range.antt =====
-- From where on sent mail is searched.
use ai_memmail.Prelude.{
  ℕ, false, Option, none, some, ℕ_eq, ◌≡◌, ◌⊎◌, inl, inr, refl, arith, Bool-cases,
}
use ai_memmail.Prelude.Int.{ℤ, pos, negsuc, ltb_ℤ}
use ai_memmail.Text.{Text, Text_eq}
use ai_memmail.Worker.Polling.{SentSyncCursor}
use ai_memmail.Mail.Imap.Sent.{is_of, sent_sync_range}

abbrev pub Covers : Option SentSyncCursor → Text → ℕ → ℤ → ℕ × ℤ → Type 0
Covers cursor folder_name uid_validity requested (last_uid, cutoff) =
    (ltb_ℤ requested cutoff ≡ false)
    × ((last_uid ≡ 0)
        ⊎ ((c : SentSyncCursor) × (cursor ≡ some c)
            × (c.folder_name ≡ folder_name)
            × (c.uid_validity ≡ uid_validity)
            × (c.last_uid ≡ last_uid)
            × (c.backfill_cutoff ≡ cutoff)))

ltb_ℤ-refl : (a : ℤ) → ltb_ℤ a a ≡ false
ltb_ℤ-refl (pos n) = ground arith
ltb_ℤ-refl (negsuc n) = ground arith

-- The search of sent mail begins no later than the requested cutoff; it leaves out uids only behind
-- a cursor of the same folder and the same validity, and then from the cutoff of the cursor on.
pub sent_sync_range-Covers :
    (cursor : Option SentSyncCursor) (folder_name : Text) (uid_validity : ℕ) (requested : ℤ)
    → Covers cursor folder_name uid_validity requested
        (sent_sync_range cursor folder_name uid_validity requested)
unfolding sent_sync_range
sent_sync_range-Covers none folder_name uid_validity requested = (ltb_ℤ-refl requested, inl refl)
sent_sync_range-Covers (some cursor) folder_name uid_validity requested =
    elim (Bool-cases (is_of cursor folder_name uid_validity)) [
      | inl e ↦ elim (Bool-cases (ltb_ℤ requested cursor.backfill_cutoff)) [
        | inl later ↦ rw (e, later) (ltb_ℤ-refl requested, inl refl)
        | inr earlier ↦
            rw (e, earlier)
              (
                earlier,
                inr (
                  cursor,
                  refl,
                  (Text_eq.beq_iff cursor.folder_name folder_name).0 (ground (arith, e)),
                  (ℕ_eq.beq_iff cursor.uid_validity uid_validity).0 (ground (arith, e)),
                  refl,
                  refl,
                ),
              )
      ]
      | inr e ↦ rw e (ltb_ℤ-refl requested, inl refl)
    ]
