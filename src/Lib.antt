-- ===== src/Lib.antt =====
-- A model of the web client of the CDK system, the TypeScript code under web/src, with theorems on
-- what it computes and on the states that its pages reach.
--
-- The client redeems codes, converts account files, and administers batches, credentials and texts.
-- Its pages hold their state in React hooks; a handler changes the state, waits for the server or
-- the browser, and changes it again. Here a page is a record of its hooks, a handler is a function
-- on the record for each stretch of code between two points where it waits, and what it waits for
-- arrives as an argument. A relation `Step` lists what users and servers can do to a page, in any
-- order that the page allows, and `Reach` the states that such steps lead to.
--
-- The parts, with the code that they model:
--   Base       strings as lists of UTF-16 code units, decimal numbers, lists and Boolean tests;
--   Json       values as JSON.parse makes them, and the language's operations on unknown values;
--   Storage    the browser's storage, an interface with the law that a written item is read back;
--   Api        web/src/lib/api.ts: the CSRF cookie (Api/Cookie: getCSRFToken), the headers and the
--              settlement of a request (Api: request, download; Api/Errors), and each operation of the
--              object api as the request that it makes (Api/Endpoints);
--   Redeem     web/src/pages/redeem.tsx without its converter tab: parseCdkList (Codes),
--              isValidEmail (Email), RedeemTab (Submit), the history of RedeemPage (History) with the
--              types of web/src/lib/types.ts that its guards check (History/Typed), what the form hands
--              to it (Delivery), the notes below the form (Notes), the two dialogs (Dialogs); and
--              web/src/lib/redeem-archive.ts (Archive);
--   Convert    web/src/lib/converter.ts: detectAndParse (Detect), convertOne and what is built on it
--              (Account), the downloads (Files); and ConvertTab of web/src/pages/redeem.tsx (Tab);
--   Admin      web/src/pages/admin: the list of credentials, its selection, its upload dialog and its
--              other dialogs (Credentials), the page bars of it and of
--              web/src/components/data-pagination.tsx (Pagination); the form for a new batch
--              (BatchForm), the list of batches (BatchList), the page of one batch (Batches), the
--              records of redemptions (Logs), the dashboard (Dashboard), the redemption notes and
--              their order (Faq), the site settings with their context in
--              web/src/components/site-settings-provider.tsx, their form and the icon of the document
--              (Settings, Settings/Icon), the badges
--              of web/src/components/status-badge.tsx (Badges, Batches), and the login with the guard,
--              the menu and the titles of web/src/layouts/admin-layout.tsx (Session);
--   Viewer     web/src/components/json-viewer.tsx: the expression TOKEN_RE as a scanner, the splitting
--              of a text by it and the colours (Viewer), and what JSON.stringify prints, in pieces
--              (Viewer/Printed);
--   Shell      web/src/App.tsx (the routes), the logo, the switch of the theme, the question before an
--              action, web/src/lib/clipboard.ts and web/src/hooks/use-mobile.ts.
-- What a page shows is a value made of its texts and of what its buttons do (the modules named Shown,
-- Redeem/Dialogs, Admin/BatchList and Admin/Dashboard); layout and styles are left out.
-- Redeem/Submit uses Codes, Email and Archive; Redeem/History stands on Storage; Convert/Tab uses
-- Detect and Files; the pages take the answers of Api as values of type Settled.
--
-- Bounds and fuel: decimal prints a number with the number itself as fuel, which is at least its
-- digits; the viewer splits a text with one step more than it has units, and every step takes at
-- least one. The history has at most 20 entries, an
-- address at most 254 code units, an input of the converter at most 10485760 bytes of UTF-8, a plan
-- name at most 100 code points. All other recursion is structural. Numbers of pages, rows and ids
-- are natural numbers.
--
-- Not modelled: fetch, JSON.parse, atob, dates, random ids, percent encoding, JSZip, the clipboard and
-- the router's matching of paths, which belong to the runtime or to third parties and are parameters;
-- of JSON.stringify the form with an indentation of two is described in Viewer/Printed, else it is a
-- parameter. The answer of a batch redemption has its declared type, while the API resolves a 2xx answer
-- whose body is no JSON to an object without results; the history takes any answer for a redemption.
-- The clock is a parameter, read for each account that is converted. Layout and styles; the interface kit in web/src/components/ui, a copy of a third-party
-- library; the start of the application; the server in Go.
pub mod Base
pub mod Json
pub mod Storage
pub mod Api
pub mod Redeem
pub mod Convert
pub mod Admin
pub mod Viewer
pub mod Shell
