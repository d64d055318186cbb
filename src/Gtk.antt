-- ===== src/Gtk.antt =====
-- The widgets that the programs with windows build with GTK, as the tree of the calls that build it:
-- the texts and the handlers that they connect. Margins, alignments and style classes are left out.
use tizen_os.Libc.{Bytes}
use tizen_os.Base.{Option, List, [], ◌∷◌, ◌++◌}

mutual
  pub data Widget (H : Type 0) : Type 0 where
    label : Bytes → Widget H
    entry : Bytes → Widget H
    button : Bytes → Option H → Widget H
    drop_down : List Bytes → Widget H
    progress_bar : Widget H
    box : Children H → Widget H
    list_box : Children H → Widget H
    stack : Pages H → Widget H
    menu_button : Bytes → Widget H → Widget H

  pub data Children (H : Type 0) : Type 0 where
    no_more : Children H
    append : Widget H → Children H → Children H

  pub data Pages (H : Type 0) : Type 0 where
    no_page : Pages H
    named : Bytes → Widget H → Pages H → Pages H

module _ {H : Type 0} where
  -- The buttons, in the order in which they stand: the text, and the handler of a click.
  unfoldable mutual
    pub buttons : Widget H → List (Bytes × Option H)
    buttons (button text handler) = (text, handler) ∷ []
    buttons (box ws) = buttons_in ws
    buttons (list_box ws) = buttons_in ws
    buttons (stack ps) = buttons_on ps
    buttons (menu_button text w) = buttons w
    buttons _ = []

    pub buttons_in : Children H → List (Bytes × Option H)
    buttons_in no_more = []
    buttons_in (append w ws) = buttons w ++ buttons_in ws

    pub buttons_on : Pages H → List (Bytes × Option H)
    buttons_on no_page = []
    buttons_on (named name w ps) = buttons w ++ buttons_on ps

  abbrev pub page_names : Pages H → List Bytes
  page_names no_page = []
  page_names (named name w ps) = name ∷ page_names ps
