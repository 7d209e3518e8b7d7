-- ===== src/Logs/Process/Counts.antt =====
-- The hourly statistics of logs count the accepted items of a batch.
use fork_glitchtip_glitchtip.Common.{
  ℕ, ◌+◌, ◌≤◌, ◌≡◌, ◌↔◌, inl, inr, true, ◌&&◌, Option, none, some, List, [], ◌∷◌, ◌++◌, All,
  All-append, length, length-append, ◌==◌, ==_iff, if◌then◌else◌, refl, sym, ap, ◌∙◌, arith,
  Bool-cases, Option-cases,
}
use fork_glitchtip_glitchtip.Partitions.Uuid7.{pos, uuid_of_ms}
use fork_glitchtip_glitchtip.Events.Stats.Sums.{hit_count, HomeHits}
use fork_glitchtip_glitchtip.Logs.Store.{StatKey, same_stat}
use fork_glitchtip_glitchtip.Logs.Items.{
  LogItem, LogTaskMessage, LogEnv, validate_timestamp, log_timestamp,
}
use fork_glitchtip_glitchtip.Logs.Process.{
  Collected, log_row, stat_key, collect_row, collect_at, collect_item, collect_items,
}

pub same_stat_iff : (a b : StatKey) → (same_stat a b ≡ true) ↔ (a ≡ b)
same_stat_iff (h, p, l, s, e) (h', p', l', s', e') = (
  (λ t.
      five (ground (arith, t)) (ground (arith, t)) (ground (arith, t)) (ground (arith, t))
        (ground (arith, t))),
  λ t.
      equal (ap {B = ℕ} (λ x. x.0) t) (ap {B = ℕ} (λ x. x.1) t) (ap {B = ℕ} (λ x. x.2) t)
        (ap {B = ℕ} (λ x. x.3) t) (ap {B = ℕ} (λ x. x.4) t),
)
  where
    five :
        h ≡ h'
        → p ≡ p'
        → l ≡ l'
        → s ≡ s'
        → e ≡ e'
        → ◌≡◌ {A = StatKey} (h, p, l, s, e) (h', p', l', s', e')
    five a b c d f = cc

    equal :
        h ≡ h'
        → p ≡ p'
        → l ≡ l'
        → s ≡ s'
        → e ≡ e'
        → same_stat (h, p, l, s, e) (h', p', l', s', e') ≡ true
    equal a b c d f = ground (arith, a, b, c, d, f)

-- the key that an item counts for at a time
unfoldable pub item_key : LogEnv → LogTaskMessage → LogItem → ℕ → StatKey
item_key env message item time = stat_key env (log_row env message item 0) time

unfoldable pub key_at : LogEnv → ℕ → LogTaskMessage → LogItem → StatKey → Option ℕ → ℕ
key_at env server_time message item key none = 0
key_at env server_time message item key (some time) =
    if validate_timestamp time server_time && same_stat (item_key env message item time) key
    then 1
    else 0

-- the items with an acceptable time that count for a key
unfoldable pub items_count : LogEnv → ℕ → StatKey → List (LogTaskMessage × LogItem) → ℕ
items_count env server_time key [] = 0
items_count env server_time key ((message, item) ∷ items) =
    key_at env server_time message item key (log_timestamp env server_time item.timestamp)
    + items_count env server_time key items

pub items_count-le-length :
    (env : LogEnv) (server_time : ℕ) (key : StatKey) (items : List (LogTaskMessage × LogItem))
    → items_count env server_time key items ≤ length items
unfolding items_count
items_count-le-length env server_time key [] = omega arith
items_count-le-length env server_time key ((message, item) ∷ items) =
    let rest = items_count-le-length env server_time key items in
    omega (arith, rest, at_most_one (log_timestamp env server_time item.timestamp))
  where
    at_most_one : (t : Option ℕ) → key_at env server_time message item key t ≤ 1
    at_most_one none = unfold key_at in omega arith
    at_most_one (some time) = unfold key_at in ground arith

hit_count-append :
    (key : StatKey) (org : ℕ) (xs ys : List (StatKey × ℕ))
    → hit_count same_stat same_stat_iff key org (xs ++ ys)
      ≡ hit_count same_stat same_stat_iff key org xs + hit_count same_stat same_stat_iff key org ys
hit_count-append key org [] ys = omega arith
hit_count-append key org ((k, o) ∷ xs) ys = omega (arith, hit_count-append key org xs ys)

stat_key-id :
    (env : LogEnv) (message : LogTaskMessage) (item : LogItem) (id time : ℕ)
    → (stat_key env (log_row env message item id) time ≡ item_key env message item time)
      × ((log_row env message item id).organization_id ≡ message.organization_id)
      × ((item_key env message item time).1 ≡ message.project_id)
unfolding stat_key log_row item_key
stat_key-id env message item id time = (refl, refl, refl)

abbrev pub Home : (ℕ → ℕ) → List (StatKey × ℕ) → Type 0
Home home = HomeHits same_stat same_stat_iff (λ k. home k.1)

abbrev pub hits_of : (ℕ → ℕ) → StatKey → Collected → ℕ
hits_of home key c = hit_count same_stat same_stat_iff key (home key.1) c.hits

-- where the project of a key gives its organization, an increment counts as its key does
one_hit :
    (home : ℕ → ℕ) (k key : StatKey) (org : ℕ)
    → org ≡ home k.1
    → ◌≡◌ {A = ℕ}
        (if same_stat k key && (org == home key.1) then 1 else 0)
        (if same_stat k key then 1 else 0)
one_hit home k key org mine = elim (Bool-cases (same_stat k key)) [
  | inl e ↦
      let there : org ≡ home key.1 =
        mine ∙ ap {B = ℕ} (λ x. home x.1) ((same_stat_iff k key).0 e) in
      let test : (org == home key.1) ≡ true = (==_iff org (home key.1)).1 there in rw (e, test) refl
  | inr e ↦ rw e refl
]

-- what an item changes
pub record IsCounted (env : LogEnv) (server_time : ℕ) (home : ℕ → ℕ) (more : StatKey → ℕ)
    (c next : Collected) : Type 0 where
  pub homes : Home home next.hits
  pub rises : (key : StatKey) → hits_of home key next ≡ hits_of home key c + more key
  pub paired : length next.hits ≡ length next.rows

collect_row-IsCounted :
    (env : LogEnv) (server_time : ℕ) (home : ℕ → ℕ) (message : LogTaskMessage) (item : LogItem)
    (id time : ℕ) (c : Collected)
    → message.organization_id ≡ home message.project_id
    → Home home c.hits
    → length c.hits ≡ length c.rows
    → IsCounted env server_time home
        (λ key. if same_stat (item_key env message item time) key then 1 else 0)
        c
        (collect_row env (log_row env message item id) time c)
unfolding collect_row
collect_row-IsCounted env server_time home message item id time c mine homes paired =
    let r = log_row env message item id in
    let (key_same, org_same, project_same) = stat_key-id env message item id time in
    let at_home : r.organization_id ≡ home (stat_key env r time).1 =
      org_same ∙ mine ∙ ap home (sym project_same) ∙ ap {B = ℕ} (λ k. home k.1) (sym key_same) in
    record {
      homes =
          All-append (λ hit. hit.1 ≡ home (hit.0).1) c.hits
            ((stat_key env r time, r.organization_id) ∷ []) homes (at_home, tt);
      rises = λ key.
          let sum =
            hit_count-append key (home key.1) c.hits
              ((stat_key env r time, r.organization_id) ∷ []) in
          let here = one_hit home (stat_key env r time) key r.organization_id at_home in
          let same : ◌≡◌ {A = ℕ} (if same_stat (stat_key env r time) key then 1 else 0)
              (if same_stat (item_key env message item time) key then 1 else 0) =
            ap {B = ℕ} (λ k. if same_stat k key then 1 else 0) key_same in
          omega (arith, sum, here, same);
      paired =
          let left = length-append c.hits ((stat_key env r time, r.organization_id) ∷ []) in
          let right = length-append c.rows (r ∷ []) in omega (arith, left, right, paired);
    }

collect_item-IsCounted :
    (env : LogEnv) (server_time : ℕ) (home : ℕ → ℕ) (message : LogTaskMessage) (item : LogItem)
    (c next : Collected)
    → message.organization_id ≡ home message.project_id
    → Home home c.hits
    → length c.hits ≡ length c.rows
    → collect_item env server_time message item c ≡ some next
    → IsCounted env server_time home
        (λ key.
          key_at env server_time message item key (log_timestamp env server_time item.timestamp))
        c
        next
unfolding collect_item key_at
collect_item-IsCounted env server_time home message item c next mine homes paired run =
    at_time (log_timestamp env server_time item.timestamp) run
  where
    at_time :
        (t : Option ℕ)
        → collect_at env server_time message item c t ≡ some next
        → IsCounted env server_time home (λ key. key_at env server_time message item key t) c next
    at_time none run = cc
    at_time (some time) run = elim (Bool-cases (validate_timestamp time server_time)) [
      | inr e ↦
          let same : c ≡ next = cc (rw e at run) in
          rw (← same)
            (record { homes = homes; rises = λ key. rw (key_at, e) (omega arith); paired = paired })
      | inl e ↦
          elim (Option-cases
            (uuid_of_ms (env.random_a (length c.rows)) (env.random_b (length c.rows)) (pos time))) [
              | inl late ↦ absurd (ground (arith, rw (e, late) at run))
              | inr (id, made) ↦
                  let same : collect_row env (log_row env message item id) time c ≡ next =
                    cc (rw (e, made) at run) in
                  let counted =
                    collect_row-IsCounted env server_time home message item id time c mine homes
                      paired in
                  rw (← same) (record {
                    homes = counted.homes;
                    rises = λ key. rw (key_at, e) (counted.rises key);
                    paired = counted.paired;
                  })
            ]
    ]

-- every message's project gives its organization
abbrev pub HomeItems : (ℕ → ℕ) → List (LogTaskMessage × LogItem) → Type 0
HomeItems home = All (λ m. (m.0).organization_id ≡ home (m.0).project_id)

pub collect_items-IsCounted :
    (env : LogEnv) (server_time : ℕ) (home : ℕ → ℕ) (items : List (LogTaskMessage × LogItem))
    (c final : Collected)
    → HomeItems home items
    → Home home c.hits
    → length c.hits ≡ length c.rows
    → collect_items env server_time items c ≡ some final
    → IsCounted env server_time home (λ key. items_count env server_time key items) c final
unfolding collect_items items_count
collect_items-IsCounted env server_time home [] c final mine homes paired run =
    let same : c ≡ final = cc in
    rw (← same) (record { homes = homes; rises = λ key. omega arith; paired = paired })
collect_items-IsCounted env server_time home ((message, item) ∷ items) c final (one, mine) homes
      paired run =
    elim (Option-cases (collect_item env server_time message item c)) [
      | inl e ↦ absurd (ground (arith, rw (collect_items, e) at run))
      | inr (next, e) ↦
          let first =
            collect_item-IsCounted env server_time home message item c next one homes paired e in
          let rest =
            collect_items-IsCounted env server_time home items next final mine first.homes
              first.paired (rw (collect_items, e) at run) in
          record {
            homes = rest.homes;
            rises = λ key. omega (arith, rest.rises key, first.rises key);
            paired = rest.paired;
          }
    ]
